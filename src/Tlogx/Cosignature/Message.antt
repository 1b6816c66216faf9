-- ===== src/Tlogx/Cosignature/Message.antt =====
-- What the message of a cosignature of internal/tlogx/cosignature.go says.
use litetlog.Prelude.{
  ℕ, ◌^◌, ◌<◌, ◌≡◌, sym, ap, ◌∙◌, inl, inr, some, [], ◌∷◌, ◌++◌, arith, Bytes, codes, All, Lacks,
  inr_injective, Option-cases,
}
use litetlog.Std.Strings.{Parts, cut, cut-append, cut_prefix, cut_prefix-append}
use litetlog.Std.Strconv.{format_int, parse_int, parse_int-format_int, format_int-Lacks}
use litetlog.Std.Base64.{IsByte, encode, decode, decode-encode, encode-Lacks}
use litetlog.Tlogx.Checkpoint.{newline, Checkpoint, parse_checkpoint}
use litetlog.Tlogx.Checkpoint.RoundTrip.{IsCheckpoint}
use litetlog.Tlogx.Checkpoint.Parse.{parse-IsCheckpoint}
use litetlog.Tlogx.Cosignature.{format_cosignature}

-- A first line, and what is behind it, are those of the text.
line_injective :
    (p q s t : Bytes)
    → Lacks newline p
    → Lacks newline q
    → p ++ (newline ∷ s) ≡ q ++ (newline ∷ t)
    → (p ≡ q) × (s ≡ t)
line_injective p q s t hp hq e =
    let same = sym (cut-append newline p s hp) ∙ ap (cut newline) e ∙ cut-append newline q t hq in
    (ap (λ (x : Parts). x.before) same, ap (λ (x : Parts). x.after) same)

format_int-injective : (n m : ℕ) → n < 2 ^ 63 → m < 2 ^ 63 → format_int n ≡ format_int m → n ≡ m
format_int-injective n m hn hm e =
    let same = sym (parse_int-format_int n hn) ∙ ap parse_int e ∙ parse_int-format_int m hm in
    cc same

encode-injective : (s t : Bytes) → All IsByte s → All IsByte t → encode s ≡ encode t → s ≡ t
encode-injective s t hs ht e =
    let same = sym (decode-encode s hs) ∙ ap decode e ∙ decode-encode t ht in cc same

prefix_injective : (p s t : Bytes) → p ++ s ≡ p ++ t → s ≡ t
prefix_injective p s t e =
    let same = sym (cut_prefix-append p s) ∙ ap (cut_prefix p) e ∙ cut_prefix-append p t in cc same

-- The lines behind the first.
abbrev lines : ℕ → Checkpoint → Bytes
lines t c =
    format_int t
    ++ (newline
        ∷ (c.origin
            ++ (newline ∷ (format_int c.size ++ (newline ∷ (encode c.hash ++ (newline ∷ [])))))))

lines-injective :
    (t t' : ℕ) (c c' : Checkpoint)
    → t < 2 ^ 63
    → t' < 2 ^ 63
    → IsCheckpoint c
    → IsCheckpoint c'
    → lines t c ≡ lines t' c'
    → (t ≡ t') × (c.origin ≡ c'.origin) × (c.size ≡ c'.size) × (c.hash ≡ c'.hash)
lines-injective t t' c c' ht ht' i i' e =
    let (times, e1) =
      line_injective (format_int t) (format_int t') _ _ (format_int-Lacks t newline (omega arith))
        (format_int-Lacks t' newline (omega arith)) e in
    let (origins, e2) = line_injective c.origin c'.origin _ _ i.origin_line i'.origin_line e1 in
    let (sizes, e3) =
      line_injective (format_int c.size) (format_int c'.size) _ _
        (format_int-Lacks c.size newline (omega arith))
        (format_int-Lacks c'.size newline (omega arith)) e2 in
    let (hashes, _) =
      line_injective (encode c.hash) (encode c'.hash) [] [] (encode-Lacks c.hash i.hash_bytes)
        (encode-Lacks c'.hash i'.hash_bytes) e3 in
    (
      format_int-injective t t' ht ht' times,
      origins,
      format_int-injective c.size c'.size i.size_fits i'.size_fits sizes,
      encode-injective c.hash c'.hash i.hash_bytes i'.hash_bytes hashes,
    )

abbrev header : Bytes
header = codes "cosignature/v1\ntime "

-- The checkpoint of a text that was formatted.
record Formatted (t : ℕ) (msg m : Bytes) : Type 0 where
  checkpoint : Checkpoint
  parses : parse_checkpoint msg ≡ some checkpoint
  spells : m ≡ header ++ lines t checkpoint

format_cosignature-Formatted :
    (t : ℕ) (msg : Bytes) {m : Bytes} → format_cosignature t msg ≡ inr m → Formatted t msg m
unfolding format_cosignature
format_cosignature-Formatted t msg {m} h = elim (Option-cases (parse_checkpoint msg)) [
  | inl e ↦ cc (rw (e, format_cosignature) at h)
  | inr (c, e) ↦ record {
    checkpoint = c;
    parses = e;
    spells = sym (inr_injective {A = Bytes} (rw (e, format_cosignature) at h));
  }
]

-- Two texts are checkpoints of one tree head.
pub record SameHead (msg msg' : Bytes) : Type 0 where
  pub first : Checkpoint
  pub second : Checkpoint
  pub first_parses : parse_checkpoint msg ≡ some first
  pub second_parses : parse_checkpoint msg' ≡ some second
  pub origins : first.origin ≡ second.origin
  pub sizes : first.size ≡ second.size
  pub hashes : first.hash ≡ second.hash

-- If formatCosignatureV1 makes one message of two texts at two times below 2^63, the times are
-- equal and both texts are parsed to checkpoints of one origin, size and hash: what is signed
-- leaves no doubt about the time and the tree head.
pub format_cosignature-SameHead :
    (t t' : ℕ) (msg msg' : Bytes) {m : Bytes}
    → t < 2 ^ 63
    → t' < 2 ^ 63
    → format_cosignature t msg ≡ inr m
    → format_cosignature t' msg' ≡ inr m
    → (t ≡ t') × SameHead msg msg'
format_cosignature-SameHead t t' msg msg' ht ht' h h' =
    let f = format_cosignature-Formatted t msg h in
    let f' = format_cosignature-Formatted t' msg' h' in
    let c = f.checkpoint in
    let c' = f'.checkpoint in
    let (times, origins, sizes, hashes) =
      lines-injective t t' c c' ht ht' (parse-IsCheckpoint msg f.parses)
        (parse-IsCheckpoint msg' f'.parses)
        (prefix_injective header (lines t c) (lines t' c') (sym f.spells ∙ f'.spells)) in
    (
      times,
      record {
        first = c;
        second = c';
        first_parses = f.parses;
        second_parses = f'.parses;
        origins = origins;
        sizes = sizes;
        hashes = hashes;
      },
    )
