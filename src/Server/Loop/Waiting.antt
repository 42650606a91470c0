-- ===== src/Server/Loop/Waiting.antt =====
-- Server/server.py: how a client makes the server wait, once an error has made its socket block.
