-- ===== src/Server/Disk.antt =====
-- The paths and the files of Server/request.py and Server/clients.py.
use secure_file_transfer_sys.Base.{
  ℕ, Bool, true, false, ◌&&◌, ◌||◌, Option, none, some, [], ◌∷◌, ◌++◌, bytes_eq, if◌then◌else◌,
}
use secure_file_transfer_sys.Runtime.{Bytes, update}
use secure_file_transfer_sys.Server.General.{folder}
use secure_file_transfer_sys.Server.Runtime.{Act, returned, raised}

abbrev pub slash : ℕ
slash = 47

unfoldable pub client_folder : Bytes → Bytes
client_folder name = folder ++ (slash ∷ name)

unfoldable pub file_path : Bytes → Bytes → Bytes
file_path name file_name = folder ++ (slash ∷ (name ++ (slash ∷ file_name)))

abbrev pub exists : Option Bytes → Bool
exists none = false
exists (some content) = true

abbrev pub content_of : Option Bytes → Bytes
content_of none = []
content_of (some content) = content

-- `open(path, "wb")` and a write of the whole content
unfoldable pub write_disk : Bytes → Bytes → Act (Unit {0})
write_disk path content s =
    if s.can_write path
    then (returned tt, record s { disk = update s.disk path content })
    else (raised, s)

-- `open(path, "ab")` and a write
unfoldable pub append_disk : Bytes → Bytes → Act (Unit {0})
append_disk path content s = write_disk path (content_of (s.disk path) ++ content) s

unfoldable pub remove_disk : Bytes → Act (Unit {0})
remove_disk path s =
    if exists (s.disk path) && s.can_write path
    then (returned tt, record s { disk = λ p. if bytes_eq path p then none else s.disk p })
    else (raised, s)

unfoldable pub make_folder : Bytes → Act (Unit {0})
make_folder path s =
    if s.folders path || exists (s.disk path)
    then (returned tt, s)
    else if s.can_make path
    then (returned tt, record s { folders = λ p. bytes_eq path p || s.folders p })
    else (raised, s)
