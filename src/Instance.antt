-- ===== src/Instance.antt =====
-- tools/oracle/internal/instance/instance.go: the environment of a PostgREST process, and the tail of
-- its standard error. Process has the starting, polling and stopping of a process.
pub mod Environment
pub mod Ring
pub mod Process
pub mod Running
use postgrest_conformance.Base.{
  ℕ, ◌+◌, ◌-◌, ◌*◌, Bool, true, false, List, [], ◌∷◌, ◌++◌, Option, none, some, ltb, if◌then◌else◌,
  length, drop,
}
use postgrest_conformance.Base.Text.{Bytes, codes, contains}
use postgrest_conformance.Base.Assoc.{Assoc, lookup, insert, delete}
use postgrest_conformance.Base.Decimal.{itoa}
use postgrest_conformance.Route.{Val, clear, set}

-- one turn of the loop over the overlay
unfoldable pub write_val : Bytes → Val → Assoc Bytes → Assoc Bytes
unfolding insert delete
write_val k clear env = delete k env
write_val k (set v) env = insert k v env

unfoldable pub apply_overlay : Assoc Bytes → Assoc Val → Assoc Bytes
unfolding write_val
apply_overlay env [] = env
apply_overlay env ((k, v) ∷ o) = apply_overlay (write_val k v env) o

-- `safeUpdateQuery`
abbrev pub safe_update_query : Bytes
safe_update_query = codes "options=-csession_preload_libraries%3Dsafeupdate"

-- `withSafeUpdate`
unfoldable pub with_safe_update : Bytes → Bool → Bytes
unfolding contains
with_safe_update uri false = uri
with_safe_update uri true =
    uri ++ ((if contains uri (codes "?") then codes "&" else codes "?") ++ safe_update_query)

-- the map that `BuildEnv` renders
unfoldable pub env_map : Assoc Bytes → Assoc Val → Bytes → Bool → ℕ → ℕ → Assoc Bytes
unfolding apply_overlay with_safe_update insert itoa
env_map base o uri safe port admin_port =
    insert (codes "PGRST_ADMIN_SERVER_PORT") (itoa admin_port) (
      insert (codes "PGRST_SERVER_PORT") (itoa port)
        (insert (codes "PGRST_DB_URI") (with_safe_update uri safe) (apply_overlay base o)))

unfoldable pub render_env : Assoc Bytes → List Bytes
render_env [] = []
render_env ((k, v) ∷ env) = (k ++ (b'=' ∷ v)) ∷ render_env env

-- `PATH`, where the calling process has it
unfoldable pub path_entry : Option Bytes → List Bytes
path_entry none = []
path_entry (some p) = (codes "PATH=" ++ p) ∷ []

-- `BuildEnv`; the last argument is the caller's PATH
unfoldable pub build_env :
    Assoc Bytes → Assoc Val → Bytes → Bool → ℕ → ℕ → Option Bytes → List Bytes
unfolding env_map render_env path_entry
build_env base o uri safe port admin_port path =
    render_env (env_map base o uri safe port admin_port) ++ path_entry path

-- `ringBuffer`
pub record RingBuffer : Type 0 where
  pub max : ℕ
  pub buf : Bytes

-- `stderrCap`
abbrev pub stderr_cap : ℕ
stderr_cap = 64 * 1024

-- `newRingBuffer`
unfoldable pub new_ring_buffer : ℕ → RingBuffer
new_ring_buffer max = record { max = max; buf = [] }

-- `Write`; its results are `len(p)` and no error
unfoldable pub write : RingBuffer → Bytes → RingBuffer × ℕ
write r p =
    let buf = r.buf ++ p in
    (
      record r { buf = if ltb r.max (length buf) then drop (length buf - r.max) buf else buf },
      length p,
    )
