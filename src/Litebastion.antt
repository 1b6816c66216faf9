-- ===== src/Litebastion.antt =====
-- cmd/litebastion/litebastion.go: the list of backends that a bastion admits, reloaded while it runs.
pub mod Load
pub mod Serve
pub mod Demo
use litetlog.Prelude.{
  ◌||◌, Bool, true, false, Option, none, some, List, [], ◌∷◌, ◌==◌, if◌then◌else◌, ◌>>=◌, length,
  Bytes, bytes_eq,
}
use litetlog.Std.Strings.{split}
use litetlog.Std.Trim.{trim_space}
use litetlog.Std.Hex.{decode_hex}
use litetlog.Bastion.{Config, Pool, new_pool}

-- `map[keyHash]bool`
abbrev pub Backends : Type 0
Backends = Bytes → Bool

abbrev pub no_backends : Backends
no_backends h = false

-- `newBackends[h] = true`
abbrev pub add_backend : Bytes → Backends → Backends
add_backend h backends j = bytes_eq j h || backends j

-- A line of the file; `none` stands for "invalid backend".
unfoldable pub read_backend : Bytes → Option Bytes
read_backend line = do l ← decode_hex line; if length l == 32 then some l else none

unfoldable pub read_backends : List Bytes → Backends → Option Backends
unfolding read_backend
read_backends [] backends = some backends
read_backends (line ∷ lines) backends = do
  h ← read_backend line
  read_backends lines (add_backend h backends)

-- The new list, where the file can be read.
unfoldable pub load_backends : Option Bytes → Option Backends
unfolding read_backends
load_backends none = none
load_backends (some list) = read_backends (split b'\n' (trim_space list)) no_backends

-- `reloadBackends`: the list stays as it is where there is an error.
unfoldable pub reload_backends : Option Bytes → Backends → Backends
unfolding load_backends
reload_backends file backends = elim (load_backends file) [ none ↦ backends | some loaded ↦ loaded ]

-- The list, and the bastion that asks it.
pub record State : Type 0 where
  pub backends : Backends
  pub pool : Pool

-- The start, if the list can be loaded.
unfoldable pub start : Option Bytes → Option State
unfolding load_backends
start file = do
  backends ← load_backends file
  some (record { backends = backends; pool = new_pool })

-- `AllowedBackend` asks the list of the time.
abbrev pub config : (Bytes → Bytes) → Backends → Config
config sha256 backends = record { sha256 = sha256; allowed_backend = backends }

-- A SIGHUP, with the file at its time, or a step of the bastion.
pub data Step (sha256 : Bytes → Bytes) (s : State) : State → Type 0 where
  reload :
      (file : Option Bytes)
      → Step sha256 s (record s { backends = reload_backends file s.backends })
  serve :
      {pool : Pool}
      → litetlog.Bastion.Step (config sha256 s.backends) s.pool pool
      → Step sha256 s (record s { pool = pool })

pub data Reach (sha256 : Bytes → Bytes) (s : State) : State → Type 0 where
  here : Reach sha256 s s
  next : {t u : State} → Reach sha256 s t → Step sha256 t u → Reach sha256 s u
