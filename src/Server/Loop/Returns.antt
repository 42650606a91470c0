-- ===== src/Server/Loop/Returns.antt =====
-- Server/server.py: when a call of `read` comes back, and when it waits.
use secure_file_transfer_sys.Server.Connection.Exchange.{Sends}
use secure_file_transfer_sys.Base.{◌≡◌, false, none}
use secure_file_transfer_sys.Server.Runtime.{State, Act, ◌>>◌}
use secure_file_transfer_sys.Server.Runtime.Stays.{Kept, Stays, Stays-give, Stays-if, Stays-bind}
use secure_file_transfer_sys.Server.Header.{get_header}
use secure_file_transfer_sys.Server.Requests.Stable.{Stable, Stays-recv, Stays-recv_int}

-- The socket does not block, and no send raises.
abbrev Unhindered : State → Type 0
Unhindered s = (s.blocking ≡ false) × Sends s

pub Stays-get_header : (W : Type 0) (P : State → Type 0) → Stable W P → Stays W P get_header
unfolding get_header
Stays-get_header W P st = Stays-bind W P (Stays-recv W P st _) (λ id.
    Stays-if W P _ (Stays-give W P none) (
      Stays-bind W P (Stays-recv_int W P st _) (λ version.
        Stays-bind W P (Stays-recv_int W P st _)
          (λ code. Stays-bind W P (Stays-recv_int W P st _) (λ size. Stays-give W P _)))))

-- Where the socket does not block and no send raises, the call does not wait, and no send will raise.
abbrev Stops : {A : Type 0} → Act A → Type 0
Stops m = (s : State) → Unhindered s → Kept ⊥ Sends (m s)
