-- ===== src/Pool/Take.antt =====
-- The plugins that a step takes are those that its registers decode.
use modbus_tcplogger.Common.{
  ℕ, ◌+◌, ◌^◌, ◌≤◌, ◌≡◌, refl, sym, ap, ap₂, ◌∙◌, true, some, List, [], ◌∷◌, ◌++◌, map, inl, inr,
  arith, if◌then◌else◌, Bool-cases, Option-cases, length,
}
use modbus_tcplogger.Common.Int.{ℤ}
use modbus_tcplogger.Common.Float.{Floats}
use modbus_tcplogger.Measures.{ModbusMeasure}
use modbus_tcplogger.Plugins.{
  RegisterDecodingPlugin, bit, shift, satec, find_your_registers, get_id, find_bit, find_shift,
  find_satec,
}
use modbus_tcplogger.Plugins.Decode.{get_value}
use modbus_tcplogger.Plugins.Found.{measure_of, get_value-find_your_registers}
use modbus_tcplogger.Pool.{take_found, both_some}
use modbus_tcplogger.Pool.Unit.{decode_each}
use modbus_tcplogger.Pool.Runs.{occurrences}

pub occurrences-append :
    (a : ℤ) (xs ys : List ℤ) → occurrences a (xs ++ ys) ≡ occurrences a xs + occurrences a ys
unfolding occurrences
occurrences-append a [] ys = omega arith
occurrences-append a (x ∷ xs) ys = ground (arith, occurrences-append a xs ys)

some-inj : {A : Type 0} {a b : A} → some a ≡ some b → a ≡ b
some-inj e = cc

map-snoc :
    {A B : Type 0} (f : A → B) (xs : List A) (x : A)
    → map f (xs ++ (x ∷ [])) ≡ map f xs ++ (f x ∷ [])
map-snoc f [] x = refl
map-snoc f (y ∷ ys) x = ap (λ l. f y ∷ l) (map-snoc f ys x)

module _ {F : Type 0} where
  -- The plugins that find their registers among `addrs`, in the order of the step.
  unfoldable pub owners : List ℤ → List (RegisterDecodingPlugin F) → List (RegisterDecodingPlugin F)
  owners addrs [] = []
  owners addrs (v ∷ vs) =
      let rest = owners addrs vs in
      if (find_your_registers v addrs).1 then rest ++ (v ∷ []) else rest

  pub get_id-find_your_registers :
      (p : RegisterDecodingPlugin F) (addrs : List ℤ)
      → get_id (find_your_registers p addrs).0 ≡ get_id p
  unfolding get_id find_your_registers find_bit find_shift find_satec
  get_id-find_your_registers (bit p) addrs = ground arith
  get_id-find_your_registers (satec p) addrs = ground arith
  get_id-find_your_registers (shift p) addrs = ground arith

module _ (fl : Floats) where
  open fl use {F}

  decode_each-append :
      (vs : List (RegisterDecodingPlugin F)) (v : RegisterDecodingPlugin F) (words : List ℕ) (t : ℤ)
      (ms : List (ModbusMeasure F)) (m : ModbusMeasure F)
      → decode_each fl vs words t ≡ some ms
      → get_value fl v words t ≡ some m
      → decode_each fl (vs ++ (v ∷ [])) words t ≡ some (ms ++ (m ∷ []))
  unfolding decode_each
  decode_each-append [] v words t ms m e g =
      ap (λ o. both_some o (some [])) g ∙ ap (λ l. some (l ++ (m ∷ []))) (some-inj e)
  decode_each-append (u ∷ vs) v words t ms m e g = elim (Option-cases (get_value fl u words t)) [
    | inl short ↦
        let clash = sym (ap (λ o. both_some o (decode_each fl vs words t)) short) ∙ e in cc
    | inr (n, read) ↦ elim (Option-cases (decode_each fl vs words t)) [
      | inl short ↦ let clash = sym (ap₂ both_some read short) ∙ e in cc
      | inr (ns, rest) ↦
          let all : n ∷ ns ≡ ms = some-inj (sym (ap₂ both_some read rest) ∙ e) in
          ap₂ both_some read (decode_each-append vs v words t ns m rest g)
          ∙ ap (λ l. some (l ++ (m ∷ []))) all
    ]
  ]

  -- The plugins that a step takes for at most 2 ^ 31 addresses decode every reply that gives a word for
  -- each address: the measures are those of the plugins that found their registers among the addresses,
  -- each with the words of its own registers.
  pub decode_each-take_found :
      (addrs : List ℤ) (vs : List (RegisterDecodingPlugin F)) (image : ℤ → ℕ) (t : ℤ)
      → length addrs ≤ 2 ^ 31
      → decode_each fl (take_found addrs vs).1 (map image addrs) t
        ≡ some (map (λ p. measure_of fl p image t) (owners addrs vs))
  unfolding decode_each take_found owners
  decode_each-take_found addrs [] image t small = refl
  decode_each-take_found addrs (v ∷ vs) image t small =
      elim (Bool-cases (find_your_registers v addrs).1) [
        | inl found ↦
            let q = (find_your_registers v addrs).0 in
            let split : find_your_registers v addrs ≡ (q, true) = ap (λ b. (q, b)) found in
            let one = get_value-find_your_registers fl v q addrs image t small split in
            let rest = decode_each-take_found addrs vs image t small in
            let both =
              decode_each-append (take_found addrs vs).1 q (map image addrs) t
                (map (λ p. measure_of fl p image t) (owners addrs vs)) (measure_of fl v image t)
                rest one in
            simp found
              (both ∙ ap some (sym (map-snoc (λ p. measure_of fl p image t) (owners addrs vs) v)))
        | inr other ↦ simp other (decode_each-take_found addrs vs image t small)
      ]
