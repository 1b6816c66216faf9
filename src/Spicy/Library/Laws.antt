-- ===== src/Spicy/Library/Laws.antt =====
-- What cmd/spicy/spicy.go relies on of golang.org/x/mod/sumdb/tlog for the texts of hashes.
use litetlog.Prelude.{◌≡◌, ◌≢◌, some, [], All}
use litetlog.Std.Trim.{IsVisible}
use litetlog.Witness.Library.{IsHash}
use litetlog.Spicy.Library.{Library}
use litetlog.Prelude.{Bytes}

-- `ParseHash` reads the text of a hash back, which is some visible ASCII bytes.
pub record TextLaws (lib : Library) : Type 0 where
  pub reads_back : (h : Bytes) → IsHash h → lib.parse_hash (lib.hash_text h) ≡ some h
  pub visible : (h : Bytes) → IsHash h → All IsVisible (lib.hash_text h)
  pub not_empty : (h : Bytes) → IsHash h → lib.hash_text h ≢ []
