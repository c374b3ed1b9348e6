-- ===== src/Names/RoundTrip.antt =====
-- The name of a replica leads back to its node.
use Prim.Native.Char.{Char}
use indy_plenum.Prelude.{
  ℕ, zero, suc, ◌/◌, ◌%◌, String, none, some, Bool, true, false, ◌≡◌, refl, if◌then◌else◌, ltb,
  ◌==◌, Bool-cases, inl, inr,
}
use indy_plenum.Names.{
  is_colon, append, has_colon, before_last_colon, node_name_of, digit, decimal, print_nat,
  generate_name,
}

before_last_colon-none : (s : String) → has_colon s ≡ false → before_last_colon s ≡ none
unfolding has_colon before_last_colon
before_last_colon-none String.[] h = refl
before_last_colon-none (String.◌∷◌ c s) h = elim (Bool-cases (is_colon c)) [
  | inl t ↦ absurd (cc (rw (t, has_colon) at h))
  | inr t ↦ rw (before_last_colon-none s (rw (t, has_colon) at h), before_last_colon, t)
]

before_last_colon-append :
    (s t : String) → has_colon t ≡ false → before_last_colon (append s (String.◌∷◌ ":" t)) ≡ some s
unfolding append before_last_colon
before_last_colon-append String.[] t h = rw (before_last_colon-none t h, before_last_colon)
before_last_colon-append (String.◌∷◌ c s) t h =
    rw (before_last_colon-append s t h, before_last_colon)

no_colon_if :
    (b : Bool) (c d : Char)
    → is_colon c ≡ false
    → is_colon d ≡ false
    → is_colon (if b then c else d) ≡ false
no_colon_if true c d hc hd = hc
no_colon_if false c d hc hd = hd

digit_no_colon : (n : ℕ) → is_colon (digit n) ≡ false
unfolding digit
digit_no_colon n = no_colon_if (n == 0) "0" _ refl (
    no_colon_if (n == 1) "1" _ refl (
      no_colon_if (n == 2) "2" _ refl (
        no_colon_if (n == 3) "3" _ refl (
          no_colon_if (n == 4) "4" _ refl (
            no_colon_if (n == 5) "5" _ refl (
              no_colon_if (n == 6) "6" _ refl
                (no_colon_if (n == 7) "7" _ refl (no_colon_if (n == 8) "8" _ refl refl))))))))

decimal_no_colon :
    (rounds n : ℕ) (rest : String)
    → has_colon rest ≡ false
    → has_colon (decimal rounds n rest) ≡ false
unfolding decimal has_colon
decimal_no_colon zero n rest h = h
decimal_no_colon (suc rounds) n rest h = elim (Bool-cases (ltb n 10)) [
  | inl t ↦ rw (t, decimal) (rw (digit_no_colon n, has_colon) h)
  | inr t ↦
      rw (t, decimal)
        (decimal_no_colon rounds (n / 10) (String.◌∷◌ (digit (n % 10)) rest)
          (rw (digit_no_colon (n % 10), has_colon) h))
]

-- The replica name that is generated for a node and an instance leads back to the node.
pub node_name_of-generate_name :
    (node_name : String) (inst_id : ℕ)
    → has_colon node_name ≡ false
    → node_name_of (generate_name node_name inst_id) ≡ node_name
unfolding node_name_of generate_name
node_name_of-generate_name node_name inst_id h = rw (
  h,
  before_last_colon-append node_name (print_nat inst_id)
      (unfold print_nat in decimal_no_colon (suc inst_id) inst_id String.[] refl),
  node_name_of,
)
