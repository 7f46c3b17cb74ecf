-- ===== src/Plugins/Found.antt =====
-- A plugin that has found its registers decodes every reply that holds them.
use Prim.Native.String.{String}
use mathlib.Core.Path.{subst}
use modbus_tcplogger.Common.{
  ℕ, suc, ◌+◌, ◌^◌, ◌≤◌, ◌<◌, ◌≡◌, refl, sym, ap, ◌∙◌, Bool, true, false, inl, inr, Option, none,
  some, List, [], ◌∷◌, map, ◌⊎◌, arith, leb, if◌then◌else◌, Bool-cases, Option-cases, length,
  get_or,
}
use modbus_tcplogger.Common.Int.{ℤ, pos, residue, wrap_i32, eqb_ℤ, eqb_ℤ_iff}
use modbus_tcplogger.Common.Float.{Floats}
use modbus_tcplogger.Measures.{ModbusMeasure}
use modbus_tcplogger.Plugins.{
  RegisterDecodingPlugin, bit, satec, shift, position, last_position, find_bit, find_shift,
  find_satec, find_your_registers, get_id,
}
use modbus_tcplogger.Plugins.Decode.{
  get_value, get_value_bit, get_value_shift, get_value_satec, bit_of, satec_raw, as_i16,
}

-- An index below the length of `xs` at which the words of `xs` show that of `addr`.
abbrev pub Shows : (ℤ → ℕ) → ℤ → List ℤ → ℕ → Type 0
Shows image addr xs j = (j < length xs) × (get_or (map image xs) j 0 ≡ image addr)

position-Shows :
    (image : ℤ → ℕ) (addr : ℤ) (i : ℕ) (xs : List ℤ) (k : ℕ)
    → position addr i xs ≡ some k
    → (j : ℕ) × (k ≡ i + j) × Shows image addr xs j
unfolding position
position-Shows image addr i [] k e = cc
position-Shows image addr i (x ∷ xs) k e = elim (Bool-cases (eqb_ℤ x addr)) [
  | inl same ↦
      let e' : some i ≡ some k = rw same at e in
      (0, ground arith, (omega arith, ap image ((eqb_ℤ_iff x addr).0 same)))
  | inr other ↦
      let e' : position addr (i + 1) xs ≡ some k = rw other at e in
      let (j, p, q) = position-Shows image addr (i + 1) xs k e' in
      (suc j, omega arith, (omega arith, q.1))
]

length-image : (image : ℤ → ℕ) (xs : List ℤ) → length (map image xs) ≡ length xs
length-image image [] = refl
length-image image (x ∷ xs) = ap suc (length-image image xs)

in_reply :
    (image : ℤ → ℕ) (addr : ℤ) (xs : List ℤ) (i : ℕ)
    → Shows image addr xs i
    → leb (length (map image xs)) i ≡ false
in_reply image addr xs i (below, shows) = ground (arith, length-image image xs)

not_found : {A C : Type 0} {r : A × Bool} {b : A} → r.1 ≡ false → r ≡ (b, true) → C
not_found {r = r} off e = let clash : r.1 ≡ true = ap (λ x. x.1) e in cc

-- What the loop over both registers has found so far, if anything.
last_position-Shows :
    (image : ℤ → ℕ) (addr : ℤ) (i : ℕ) (found : Option ℕ) (xs : List ℤ) (k : ℕ)
    → last_position addr i found xs ≡ some k
    → (found ≡ some k) ⊎ ((j : ℕ) × (k ≡ i + j) × Shows image addr xs j)
unfolding last_position
last_position-Shows image addr i found [] k e = inl e
last_position-Shows image addr i found (x ∷ xs) k e =
    step (last_position-Shows image addr (i + 1) (if eqb_ℤ addr x then some i else found) xs k e)
  where
    step :
        ((if eqb_ℤ addr x then some i else found) ≡ some k)
          ⊎ ((j : ℕ) × (k ≡ i + 1 + j) × Shows image addr xs j)
        → (found ≡ some k) ⊎ ((j : ℕ) × (k ≡ i + j) × Shows image addr (x ∷ xs) j)
    step (inr (j, p, q)) = inr (suc j, omega arith, (omega arith, q.1))
    step (inl h) = elim (Bool-cases (eqb_ℤ addr x)) [
      | inl same ↦
          let h' : some i ≡ some k = rw same at h in
          inr (0, ground arith, (omega arith, ap image (sym ((eqb_ℤ_iff addr x).0 same))))
      | inr other ↦ inl (rw other at h)
    ]

first_Shows :
    (image : ℤ → ℕ) (addr : ℤ) (xs : List ℤ) (k : ℕ)
    → position addr 0 xs ≡ some k
    → Shows image addr xs k
first_Shows image addr xs k e =
    let (j, here, shows) = position-Shows image addr 0 xs k e in
    let here' : k ≡ j = omega arith in subst (λ v. Shows image addr xs v) (sym here') shows

last_Shows :
    (image : ℤ → ℕ) (addr : ℤ) (xs : List ℤ) (k : ℕ)
    → last_position addr 0 none xs ≡ some k
    → Shows image addr xs k
last_Shows image addr xs k e = elim (last_position-Shows image addr 0 none xs k e) [
  | inl clash ↦ cc
  | inr (j, here, shows) ↦
      let here' : k ≡ j = omega arith in subst (λ v. Shows image addr xs v) (sym here') shows
]

residue-wrap_i32 : (i : ℕ) → i < 2 ^ 31 → residue (2 ^ 64) (wrap_i32 (pos i)) ≡ i
unfolding wrap_i32
residue-wrap_i32 i h = ground arith

module _ (fl : Floats) where
  open fl use {F, of_int, fdiv}

  -- The value that a plugin stands for, where `image` tells the word at each address.
  abbrev pub value_of : RegisterDecodingPlugin F → (ℤ → ℕ) → F
  value_of (bit p) image = of_int (pos (bit_of (image p.addr) p.bit_addr))
  value_of (satec p) image =
      fdiv (satec_raw fl p.is_signed (image p.hi_register) (image p.lo_register)) p.multiplier
  value_of (shift p) image = fdiv (of_int (as_i16 (image p.addr))) p.multiplier

  abbrev pub tag_of : RegisterDecodingPlugin F → String
  tag_of (bit p) = p.tag
  tag_of (satec p) = p.tag
  tag_of (shift p) = p.tag

  abbrev pub is_logging : RegisterDecodingPlugin F → Bool
  is_logging (bit p) = p.is_logging
  is_logging (satec p) = p.is_logging
  is_logging (shift p) = p.is_logging

  abbrev pub measure_of : RegisterDecodingPlugin F → (ℤ → ℕ) → ℤ → ModbusMeasure F
  measure_of p image timestamp = record {
    measure_value = value_of p image;
    is_logging = is_logging p;
    value_id = residue (2 ^ 32) (get_id p);
    tag = tag_of p;
    measure_time = timestamp;
  }

  -- A plugin that found its registers in a list of addresses decodes every reply that gives the words at
  -- those addresses, in their order: it never reads out of range, and its value is that of its own
  -- registers, wherever they stand in the list. The list has at most 2 ^ 31 addresses.
  pub get_value-find_your_registers :
      (p q : RegisterDecodingPlugin F) (dataset : List ℤ) (image : ℤ → ℕ) (timestamp : ℤ)
      → length dataset ≤ 2 ^ 31
      → find_your_registers p dataset ≡ (q, true)
      → get_value fl q (map image dataset) timestamp ≡ some (measure_of p image timestamp)
  unfolding find_your_registers find_bit find_satec find_shift get_value get_value_bit
      get_value_satec get_value_shift get_id
  get_value-find_your_registers (bit p) q dataset image t small e = elim (Bool-cases p.is_init) [
    | inl on ↦
        let unfound : (find_your_registers {F = F} (bit p) dataset).1 ≡ false = simp on in
        not_found unfound e
    | inr off ↦ elim (Option-cases (position p.addr 0 dataset)) [
      | inl absent ↦
          let unfound : (find_your_registers {F = F} (bit p) dataset).1 ≡ false =
            simp (off, absent) in
          not_found unfound e
      | inr (i, found) ↦
          let shows = first_Shows image p.addr dataset i found in
          let inside = in_reply image p.addr dataset i shows in
          let done : find_your_registers {F = F} (bit p) dataset
              ≡ (bit (record p { is_init = true; pos_in_list = i }), true) =
            simp (off, found) in
          subst (λ v. get_value fl v (map image dataset) t ≡ some (measure_of (bit p) image t))
            (ap (λ x. x.0) (sym done ∙ e)) (simp (inside, shows.1))
    ]
  ]
  get_value-find_your_registers (shift p) q dataset image t small e = elim (Bool-cases p.is_init) [
    | inl on ↦
        let unfound : (find_your_registers {F = F} (shift p) dataset).1 ≡ false = simp on in
        not_found unfound e
    | inr off ↦ elim (Option-cases (position p.addr 0 dataset)) [
      | inl absent ↦
          let unfound : (find_your_registers {F = F} (shift p) dataset).1 ≡ false =
            simp (off, absent) in
          not_found unfound e
      | inr (i, found) ↦
          let shows = first_Shows image p.addr dataset i found in
          let inside = in_reply image p.addr dataset i shows in
          let done : find_your_registers {F = F} (shift p) dataset
              ≡ (shift (record p { is_init = true; pos_in_list = i }), true) =
            simp (off, found) in
          subst (λ v. get_value fl v (map image dataset) t ≡ some (measure_of (shift p) image t))
            (ap (λ x. x.0) (sym done ∙ e)) (simp (inside, shows.1))
    ]
  ]
  get_value-find_your_registers (satec p) q dataset image t small e = elim (Bool-cases p.is_init) [
    | inl on ↦
        let unfound : (find_your_registers {F = F} (satec p) dataset).1 ≡ false = simp on in
        not_found unfound e
    | inr off ↦ elim (Option-cases (last_position p.hi_register 0 none dataset)) [
      | inl absent ↦
          let unfound : (find_your_registers {F = F} (satec p) dataset).1 ≡ false =
            simp (off, absent) in
          not_found unfound e
      | inr (i, found) ↦ elim (Option-cases (last_position p.lo_register 0 none dataset)) [
        | inl absent ↦
            let unfound : (find_your_registers {F = F} (satec p) dataset).1 ≡ false =
              simp (off, found, absent) in
            not_found unfound e
        | inr (k, found_lo) ↦
            let hi = last_Shows image p.hi_register dataset i found in
            let lo = last_Shows image p.lo_register dataset k found_lo in
            let hi_at = residue-wrap_i32 i (omega arith) in
            let lo_at = residue-wrap_i32 k (omega arith) in
            let hi_in = in_reply image p.hi_register dataset i hi in
            let lo_in = in_reply image p.lo_register dataset k lo in
            let done : find_your_registers {F = F} (satec p) dataset ≡ (
              satec (record p {
                is_init = true;
                hi_pos_register = wrap_i32 (pos i);
                lo_pos_register = wrap_i32 (pos k);
              }),
              true,
            ) =
              simp (off, found, found_lo) in
            subst (λ v. get_value fl v (map image dataset) t ≡ some (measure_of (satec p) image t))
              (ap (λ x. x.0) (sym done ∙ e)) (simp (hi_at, lo_at, hi_in, lo_in, hi.1, lo.1))
      ]
    ]
  ]
