-- ===== src/Pool/Once.antt =====
-- No value is read twice: each plugin goes to one step at most.
use modbus_tcplogger.Common.{
  ℕ, ◌+◌, ◌≤◌, ◌≡◌, refl, sym, ap, ◌∙◌, List, [], ◌∷◌, ◌++◌, map, arith, inl, inr, Bool-cases,
}
use modbus_tcplogger.Common.Int.{ℤ}
use modbus_tcplogger.Plugins.{RegType, RegisterDecodingPlugin, find_your_registers, get_id}
use modbus_tcplogger.Pool.{ReadStep, take_found, make_steps, get_values_id}
use modbus_tcplogger.Pool.Runs.{occurrences}
use modbus_tcplogger.Pool.Take.{get_id-find_your_registers}

module _ {F : Type 0} where
  -- How often the id `a` stands among plugins, and in steps.
  abbrev pub count : ℤ → List (RegisterDecodingPlugin F) → ℕ
  count a ps = occurrences a (map get_id ps)

  unfoldable pub count_in_steps : ℤ → List (ReadStep F) → ℕ
  count_in_steps a [] = 0
  count_in_steps a (s ∷ ss) = occurrences a (get_values_id s) + count_in_steps a ss

  count-cons :
      (a : ℤ) (p q : RegisterDecodingPlugin F) (ps : List (RegisterDecodingPlugin F))
      → get_id p ≡ get_id q
      → count a (p ∷ ps) ≡ count a (q ∷ ps)
  count-cons a p q ps e = ap (λ i. occurrences a (i ∷ map get_id ps)) e

  count-push :
      (a : ℤ) (ps : List (RegisterDecodingPlugin F)) (p : RegisterDecodingPlugin F)
      → count a (ps ++ (p ∷ [])) ≡ count a (p ∷ ps)
  unfolding occurrences
  count-push a [] p = refl
  count-push a (q ∷ ps) p = ground (arith, count-push a ps p)

  count-swap :
      (a : ℤ) (p : RegisterDecodingPlugin F) (ps qs : List (RegisterDecodingPlugin F))
      → count a (p ∷ ps) + count a qs ≡ count a ps + count a (p ∷ qs)
  unfolding occurrences
  count-swap a p ps qs = ground arith

  count-more :
      (a : ℤ) (p : RegisterDecodingPlugin F) (ps qs rs : List (RegisterDecodingPlugin F))
      → count a ps + count a qs ≡ count a rs
      → count a (p ∷ ps) + count a qs ≡ count a (p ∷ rs)
  unfolding occurrences
  count-more a p ps qs rs e = ground arith

  count-take_found :
      (a : ℤ) (addrs : List ℤ) (vs : List (RegisterDecodingPlugin F))
      → count a (take_found addrs vs).0 + count a (take_found addrs vs).1 ≡ count a vs
  unfolding take_found occurrences
  count-take_found a addrs [] = omega arith
  count-take_found a addrs (v ∷ vs) =
      let v' = (find_your_registers v addrs).0 in
      let (left, taken) = take_found addrs vs in
      let ih = count-more a v left taken vs (count-take_found a addrs vs) in
      let same = get_id-find_your_registers v addrs in
      elim (Bool-cases (find_your_registers v addrs).1) [
        | inl found ↦
            let both : count a left + count a (taken ++ (v' ∷ [])) ≡ count a (v ∷ vs) =
              ap (λ n. count a left + n) (count-push a taken v' ∙ count-cons a v' v taken same)
              ∙ sym (count-swap a v left taken)
              ∙ ih in
            simp found both
        | inr other ↦
            let both : count a (v' ∷ left) + count a taken ≡ count a (v ∷ vs) =
              ap (λ n. n + count a taken) (count-cons a v' v left same) ∙ ih in
            simp other both
      ]

  -- However the registers are grouped, no id stands in the steps more often than among the plugins that
  -- the steps are made of: a value is read by one step at most.
  pub count-make_steps :
      (a : ℤ) (reg_type : RegType) (groups : List (List ℤ)) (vs : List (RegisterDecodingPlugin F))
      → count_in_steps a (make_steps reg_type groups vs) ≤ count a vs
  unfolding make_steps count_in_steps
  count-make_steps a reg_type [] vs = omega arith
  count-make_steps a reg_type ([] ∷ groups) vs = count-make_steps a reg_type groups vs
  count-make_steps a reg_type ((reg ∷ regs) ∷ groups) vs =
      let rest = count-make_steps a reg_type groups (take_found (reg ∷ regs) vs).0 in
      let split = count-take_found a (reg ∷ regs) vs in omega arith
