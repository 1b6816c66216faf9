-- ===== src/Spicy/Append/Paths.antt =====
-- The files of the log that cmd/spicy/spicy.go keeps have different paths.
use litetlog.Prelude.{
  ℕ, ◌<◌, ◌^◌, ◌≡◌, ◌≢◌, sym, ap, ◌∙◌, ◌⊎◌, inl, inr, some_injective, [], ◌∷◌, ◌++◌, Bytes, codes,
  All, pos, arith,
}
use litetlog.Std.Path.{join, IsName, stem, join-stem, slash}
use litetlog.Std.Strconv.{
  parse_int, format_int, parse_int-format_int, format_int_not_empty, format_int-Lacks,
  format_int-IsDigit, IsDigit,
}
use litetlog.Spicy.Append.{entry_path}
use litetlog.Spicy.Init.{latest_path, edge_path}

append_cancel : (p s t : Bytes) → p ++ s ≡ p ++ t → s ≡ t
append_cancel [] s t e = e
append_cancel (c ∷ p) s t e = append_cancel p s t (cc e)

pos_injective : (n m : ℕ) → pos n ≡ pos m → n ≡ m
pos_injective n m e = cc e

-- A text of digits does not start with another byte.
pub ne_digit :
    (s : Bytes) → All IsDigit s → {c : ℕ} → ((c < b'0') ⊎ (b'9' < c)) → (t : Bytes) → s ≢ c ∷ t
ne_digit [] h out t e = cc e
ne_digit (d ∷ s) (digit, h) {c} out t e = let same : d ≡ c = cc e in ground (arith, same, digit)

pub number-IsName : (n : ℕ) → IsName (format_int n)
number-IsName n = record {
  not_empty = format_int_not_empty n;
  not_dot = ne_digit (format_int n) (format_int-IsDigit n) (inl (omega arith)) [];
  not_dot_dot = ne_digit (format_int n) (format_int-IsDigit n) (inl (omega arith)) (codes ".");
  lacks = format_int-Lacks n slash (omega arith);
}

latest-IsName : IsName (codes "latest")
latest-IsName = record {
  not_empty = λ e. cc e;
  not_dot = λ e. cc e;
  not_dot_dot = λ e. cc e;
  lacks = ground arith;
}

edge-IsName : IsName (codes "edge")
edge-IsName = record {
  not_empty = λ e. cc e;
  not_dot = λ e. cc e;
  not_dot_dot = λ e. cc e;
  lacks = ground arith;
}

names_apart : (assets s t : Bytes) → IsName s → IsName t → s ≢ t → join assets s ≢ join assets t
names_apart assets s t hs ht ne e =
    ne (append_cancel (stem assets) s t (sym (join-stem assets s hs) ∙ e ∙ join-stem assets t ht))

pub entry_path-ne :
    (assets : Bytes) (n m : ℕ)
    → n < 2 ^ 63
    → m < 2 ^ 63
    → n ≢ m
    → entry_path assets n ≢ entry_path assets m
entry_path-ne assets n m hn hm ne =
    names_apart assets (format_int n) (format_int m) (number-IsName n) (number-IsName m) λ e.
      let both = sym (parse_int-format_int n hn) ∙ ap parse_int e ∙ parse_int-format_int m hm in
      ne (pos_injective n m (some_injective both))

pub entry_path-ne_latest : (assets : Bytes) (n : ℕ) → latest_path assets ≢ entry_path assets n
entry_path-ne_latest assets n =
    names_apart assets (codes "latest") (format_int n) latest-IsName (number-IsName n) (λ e.
      ne_digit (format_int n) (format_int-IsDigit n) (inr (omega arith)) (codes "atest") (sym e))

pub entry_path-ne_edge : (assets : Bytes) (n : ℕ) → edge_path assets ≢ entry_path assets n
entry_path-ne_edge assets n =
    names_apart assets (codes "edge") (format_int n) edge-IsName (number-IsName n) (λ e.
      ne_digit (format_int n) (format_int-IsDigit n) (inr (omega arith)) (codes "dge") (sym e))

pub latest_path-ne_edge : (assets : Bytes) → latest_path assets ≢ edge_path assets
latest_path-ne_edge assets =
    names_apart assets (codes "latest") (codes "edge") latest-IsName edge-IsName (λ e. cc e)
