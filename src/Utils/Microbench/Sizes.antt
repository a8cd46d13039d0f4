-- ===== src/Utils/Microbench/Sizes.antt =====
-- The sizes that the arguments give.
use libvsf.Prelude.{
  ℕ, ◌+◌, ◌-◌, ◌*◌, ◌^◌, ◌<◌, ◌≡◌, ◌≢◌, ◌⊎◌, refl, true, false, [], ◌∷◌, ◌++◌, arith, All,
}
use libvsf.Prelude.Word.{u64}
use libvsf.Utils.StrTools.{Text, is_digit}
use libvsf.Utils.StrTools.Names.{IsNumber}
use libvsf.Utils.Numbers.{digits_from}
use libvsf.Utils.Microbench.{parse_bytes, unit_size, last_char}

-- The value of a text of digits, after the number `n`.
abbrev pub decimal : ℕ → Text → ℕ
decimal n [] = n
decimal n (c ∷ cs) = decimal (n * 10 + (c - 48)) cs

digits_from-append :
    (n u : ℕ) (ds : Text)
    → All (λ c. is_digit c ≡ true) ds
    → is_digit u ≡ false
    → digits_from n (ds ++ u ∷ []) ≡ decimal n ds
unfolding digits_from
digits_from-append n u [] h k = rw k refl
digits_from-append n u (c ∷ cs) h k = rw h.0 (digits_from-append (n * 10 + (c - 48)) u cs h.1 k)

last_char-append : (c u : ℕ) (cs : Text) → last_char c (cs ++ u ∷ []) ≡ u
last_char-append c u [] = refl
last_char-append c u (d ∷ ds) = last_char-append d u ds

parse_bytes-unit :
    (ds : Text) (u : ℕ)
    → IsNumber ds
    → is_digit u ≡ false
    → parse_bytes (ds ++ u ∷ []) ≡ u64 (decimal 0 ds * unit_size u)
unfolding parse_bytes
parse_bytes-unit [] u h k = ground (arith, h.0)
parse_bytes-unit (c ∷ cs) u h k =
    rw (h.1.0, digits_from-append 0 u (c ∷ cs) h.1 k, last_char-append c u cs) refl

-- A number with m, k or b after it, small or capital, is read as so many times 2 ^ 20, 2 ^ 10 or one
-- bytes, where the first product fits 64 bits. With any other character but a digit after it it is 0.
pub parse_bytes_lem :
    (ds : Text) (u : ℕ)
    → IsNumber ds
    → decimal 0 ds * 2 ^ 20 < 2 ^ 64
    → is_digit u ≡ false
    → (((u ≡ 109) ⊎ (u ≡ 77)) → parse_bytes (ds ++ u ∷ []) ≡ decimal 0 ds * 2 ^ 20)
      × (((u ≡ 107) ⊎ (u ≡ 75)) → parse_bytes (ds ++ u ∷ []) ≡ decimal 0 ds * 2 ^ 10)
      × (((u ≡ 98) ⊎ (u ≡ 66)) → parse_bytes (ds ++ u ∷ []) ≡ decimal 0 ds)
      × (u ≢ 109 → u ≢ 77 → u ≢ 107 → u ≢ 75 → u ≢ 98 → u ≢ 66 → parse_bytes (ds ++ u ∷ []) ≡ 0)
unfolding unit_size
parse_bytes_lem ds u h fits k = rw (parse_bytes-unit ds u h k) (
  λ e. ground (arith, e, fits),
  λ e. ground (arith, e, fits),
  λ e. ground (arith, e, fits),
  λ a b c d e f. ground (arith, a, b, c, d, e, f),
)
