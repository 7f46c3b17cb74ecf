-- ===== src/ReadMaster/Choice.antt =====
-- Which device `when_next_device` chooses.
use mathlib.Core.Path.{subst}
use modbus_tcplogger.Pool.Unit.{ModbusDeviceUnit}
use modbus_tcplogger.Common.{false}
use modbus_tcplogger.Common.{
  ℕ, suc, ◌+◌, ◌≤◌, ◌≡◌, refl, sym, ap, ◌∙◌, true, ◌&&◌, some, inl, inr, List, [], ◌∷◌, arith, ltb,
  if◌then◌else◌, Bool-cases, ◌⊎◌, get_elem?, All,
}
use modbus_tcplogger.ReadMaster.{ReadMaster, done, choose, choice, is_active, when_next_device}

module _ {F : Type 0} where
  -- A device that is active is not due before `t`.
  abbrev pub NotBefore : ℕ → ModbusDeviceUnit F → Type 0
  NotBefore t d = d.is_active ≡ true → t ≤ d.next_read_at

  -- The chosen device is `c` at time `t`, or it is an active one of `ds` that is due at that time.
  abbrev pub Chosen : ℕ → ℕ × ℕ → List (ModbusDeviceUnit F) → ℕ × ℕ → Type 0
  Chosen i start ds r =
      (r ≡ start)
      ⊎ ((j : ℕ) × (d : ModbusDeviceUnit F) × (r.1 ≡ i + j)
          × (get_elem? ds j ≡ some d)
          × (d.is_active ≡ true)
          × (r.0 ≡ d.next_read_at))

  choose-least :
      (i t c : ℕ) (ds : List (ModbusDeviceUnit F))
      → ((choose i t c ds).0 ≤ t) × All (NotBefore (choose i t c ds).0) ds
  unfolding choose
  choose-least i t c [] = (omega arith, tt)
  choose-least i t c (d ∷ ds) =
      let sooner = ltb d.next_read_at t && d.is_active in
      let (h, rest) =
        choose-least (suc i) (if sooner then d.next_read_at else t) (if sooner then i else c) ds in
      (ground arith, (λ on. ground arith, rest))

  choose-Chosen :
      (i t c : ℕ) (ds : List (ModbusDeviceUnit F)) → Chosen i (t, c) ds (choose i t c ds)
  unfolding choose
  choose-Chosen i t c [] = inl refl
  choose-Chosen i t c (d ∷ ds) = elim (Bool-cases (ltb d.next_read_at t && d.is_active)) [
    | inl sooner ↦
        let on : d.is_active ≡ true = ground arith in
        let here : choose (suc i) d.next_read_at i ds ≡ choose i t c (d ∷ ds) =
          sym (simp (choose, sooner) refl) in
        subst (Chosen i (t, c) (d ∷ ds)) here (elim (choose-Chosen (suc i) d.next_read_at i ds) [
          | inl same ↦ inr (0, d, ap (λ r. r.1) same ∙ omega arith, refl, on, ap (λ r. r.0) same)
          | inr (j, e, p, q, o, u) ↦ inr (suc j, e, p ∙ omega arith, q, o, u)
        ])
    | inr later ↦
        let here : choose (suc i) t c ds ≡ choose i t c (d ∷ ds) =
          sym (simp (choose, later) refl) in
        subst (Chosen i (t, c) (d ∷ ds)) here (elim (choose-Chosen (suc i) t c ds) [
          | inl same ↦ inl same
          | inr (j, e, p, q, o, u) ↦ inr (suc j, e, p ∙ omega arith, q, o, u)
        ])
  ]

  chosen :
      (m : ReadMaster F) (d : ModbusDeviceUnit F) (ds : List (ModbusDeviceUnit F))
      → m.devices ≡ d ∷ ds
      → (j : ℕ) (e : ModbusDeviceUnit F) → (choose 0 d.next_read_at 0 (d ∷ ds)).1 ≡ j
      → get_elem? (d ∷ ds) j ≡ some e
      → e.is_active ≡ true
      → (choose 0 d.next_read_at 0 (d ∷ ds)).0 ≡ e.next_read_at
      → (j : ℕ) × (e : ModbusDeviceUnit F) × (when_next_device m
          ≡ done (record m { current_devise_index = some j }, e.next_read_at))
        × (get_elem? m.devices j ≡ some e)
        × (e.is_active ≡ true)
        × All (NotBefore e.next_read_at) m.devices
  unfolding when_next_device
  chosen m d ds list j e p q o u =
      let here = ap choice list ∙ ap some (λ i. (u i, p i)) in
      let it = ap (λ l. get_elem? l j) list ∙ q in
      let active : is_active (get_elem? m.devices j) ≡ true = ap is_active it ∙ o in
      (
        j,
        e,
        simp (when_next_device, here, active) refl,
        it,
        o,
        subst (λ t. All (NotBefore t) m.devices) u
            (subst (All (NotBefore (choose 0 d.next_read_at 0 (d ∷ ds)).0)) (sym list)
              (choose-least 0 d.next_read_at 0 (d ∷ ds)).1),
      )

  -- With an active device at the head of the list, `when_next_device` chooses an active device, and no
  -- active device is due before it.
  pub when_next_device-least :
      (m : ReadMaster F) (d : ModbusDeviceUnit F) (ds : List (ModbusDeviceUnit F))
      → m.devices ≡ d ∷ ds
      → d.is_active ≡ true
      → (j : ℕ) × (e : ModbusDeviceUnit F) × (when_next_device m
          ≡ done (record m { current_devise_index = some j }, e.next_read_at))
        × (get_elem? m.devices j ≡ some e)
        × (e.is_active ≡ true)
        × All (NotBefore e.next_read_at) m.devices
  unfolding when_next_device
  when_next_device-least m d ds list on = elim (choose-Chosen 0 d.next_read_at 0 (d ∷ ds)) [
    | inl same ↦ chosen m d ds list 0 d (ap (λ x. x.1) same) refl on (ap (λ x. x.0) same)
    | inr (j, e, p, q, o, u) ↦ chosen m d ds list j e (p ∙ omega arith) q o u
  ]

  choose-stays :
      (i t c : ℕ) (ds : List (ModbusDeviceUnit F))
      → All (λ e. t ≤ e.next_read_at) ds
      → choose i t c ds ≡ (t, c)
  unfolding choose
  choose-stays i t c [] h = refl
  choose-stays i t c (d ∷ ds) h =
      let late : ltb d.next_read_at t && d.is_active ≡ false = ground (arith, h.0) in
      let here : choose i t c (d ∷ ds) ≡ choose (suc i) t c ds = simp (choose, late) refl in
      here ∙ choose-stays (suc i) t c ds h.1

  -- Where the first device is not active and no other is due before it, `when_next_device` chooses it
  -- all the same, whichever of the others are active.
  pub when_next_device-inactive :
      (m : ReadMaster F) (d : ModbusDeviceUnit F) (ds : List (ModbusDeviceUnit F))
      → m.devices ≡ d ∷ ds
      → d.is_active ≡ false
      → All (λ e. d.next_read_at ≤ e.next_read_at) ds
      → when_next_device m ≡ done (record m { current_devise_index = some 0 }, 1000)
  unfolding when_next_device
  when_next_device-inactive m d ds list off late =
      let stays = choose-stays 0 d.next_read_at 0 (d ∷ ds) (omega arith, late) in
      let here = ap choice list ∙ ap some stays in
      let it = ap (λ l. get_elem? l 0) list in
      let idle : is_active (get_elem? m.devices 0) ≡ false = ap is_active it ∙ off in
      simp (when_next_device, here, idle) refl
