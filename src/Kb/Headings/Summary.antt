-- ===== src/Kb/Headings/Summary.antt =====
-- crates/oracle-automate-kb/src/doc_tree.rs, `extract_summary`: its size.
use mathlib.Core.List.{reverse-cons}
use oracle_automate.Prelude.{
  ℕ, ◌+◌, ◌≤◌, ◌<◌, ◌≡◌, refl, Bool-cases, inl, inr, [], ◌∷◌, ◌++◌, reverse, leb, ◌||◌,
  if◌then◌else◌, arith,
}
use oracle_automate.Text.Codes.{Codes, byte_length, utf8_size, is_whitespace, trim, trim_start}
use oracle_automate.Kb.Headings.{extract_summary, summary_text, ends_sentence}

byte_length-append : (a b : Codes) → byte_length (a ++ b) ≡ byte_length a + byte_length b
byte_length-append [] b = omega arith
byte_length-append (c ∷ cs) b = omega (arith, byte_length-append cs b)

byte_length-reverse : (a : Codes) → byte_length (reverse a) ≡ byte_length a
byte_length-reverse [] = refl
byte_length-reverse (c ∷ cs) =
    rw (reverse-cons c cs)
      (omega (arith, byte_length-append (reverse cs) (c ∷ []), byte_length-reverse cs))

byte_length-trim_start : (a : Codes) → byte_length (trim_start a) ≤ byte_length a
unfolding trim_start
byte_length-trim_start [] = omega arith
byte_length-trim_start (c ∷ cs) = elim (Bool-cases (is_whitespace c)) [
  | inl b ↦ rw b (omega (arith, byte_length-trim_start cs))
  | inr b ↦ rw b (omega arith)
]

byte_length-trim : (a : Codes) → byte_length (trim a) ≤ byte_length a
unfolding trim
byte_length-trim a = omega (
  arith,
  byte_length-reverse (trim_start (reverse (trim_start a))),
  byte_length-trim_start (reverse (trim_start a)),
  byte_length-reverse (trim_start a),
  byte_length-trim_start a,
)

utf8_size-le : (c : ℕ) → utf8_size c ≤ 4
utf8_size-le c = ground arith

summary_text-le :
    (k len : ℕ) (cs : Codes) → len < 280 → len + byte_length (summary_text k len cs) ≤ 283
unfolding summary_text
summary_text-le k len [] h = omega arith
summary_text-le k len (c ∷ cs) h =
    let ended = (if ends_sentence c then k + 1 else k) in
    elim (Bool-cases (leb 2 ended || leb 280 (len + utf8_size c))) [
      | inl b ↦ rw b (omega (arith, h, utf8_size-le c))
      | inr b ↦
          rw b (omega (arith, summary_text-le ended (len + utf8_size c) cs (ground (arith, b))))
    ]

-- A summary is at most 283 bytes long: 280, and what is left of the code point that reaches them.
pub extract_summary-bytes : (body : Codes) → byte_length (extract_summary body) ≤ 283
unfolding extract_summary
extract_summary-bytes body = omega (
  arith,
  byte_length-trim (summary_text 0 0 (trim body)),
  summary_text-le 0 0 (trim body) (omega arith),
)
