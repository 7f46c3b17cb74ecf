-- ===== src/Live/View.antt =====
-- What a client has been sent is what the coordinator knows.
use Prim.Native.String.{String}
use text.Mathlib.Text.{◌==◌ as str_eq}
use text.Mathlib.TextEquality.{eq_iff}
use modbus_tcplogger.Common.{
  ℕ, Bool, true, false, ◌&&◌, List, [], ◌∷◌, ◌++◌, ◌≡◌, refl, sym, ap, ◌∙◌, append-nil, inl, inr,
  if◌then◌else◌, is_empty, Bool-cases,
}
use mathlib.Core.Path.{subst}
use modbus_tcplogger.Common.Int.{ℤ, eqb_ℤ, eqb_ℤ_iff}
use modbus_tcplogger.Common.Float.{Floats}
use modbus_tcplogger.Measures.{ModbusMeasure}
use modbus_tcplogger.ReadMaster.{NodeEventType, DeviceEventType}
use modbus_tcplogger.Live.Watch.{check_change, latest, Shown, changed-Shown, same-Shown}
use modbus_tcplogger.Live.{
  FlushPayload, CoordUnitWebSocketData, Coord, node_eq, device_eq, node_events, device_events,
  value_events, each_unit, flush_unit, flush_subscribers, on_node_event, note_device, note_value,
  note_values, on_device_event, cleared, append_payload, payload_of,
}

module _ {F : Type 0} where
  -- For each node, device and value that the client asked for, the last change it was or will be sent is
  -- the state that the coordinator keeps.
  abbrev pub Shows : Coord F → CoordUnitWebSocketData F → Type 0
  Shows c u =
      Shown eqb_ℤ eqb_ℤ_iff u.nodes (u.got.nodes ++ u.nodes_change) c.nodes
      × Shown eqb_ℤ eqb_ℤ_iff u.devises (u.got.devices ++ u.devise_change) c.devises
      × Shown str_eq eq_iff u.tags (u.got.values ++ u.value_change) c.values

  -- So it is for all subscribers.
  abbrev pub Every :
      (CoordUnitWebSocketData F → Type 0) → List (ℕ × CoordUnitWebSocketData F) → Type 0
  Every P [] = Unit
  Every P ((id, u) ∷ us) = P u × Every P us

  Every-each_unit :
      (P Q : CoordUnitWebSocketData F → Type 0)
      (f : CoordUnitWebSocketData F → CoordUnitWebSocketData F)
      → ((u : CoordUnitWebSocketData F) → P u → Q (f u))
      → (us : List (ℕ × CoordUnitWebSocketData F)) → Every P us
      → Every Q (each_unit f us)
  unfolding each_unit
  Every-each_unit P Q f h [] a = tt
  Every-each_unit P Q f h ((id, u) ∷ us) a = (h u a.0, Every-each_unit P Q f h us a.1)

  Every-map :
      (P Q : CoordUnitWebSocketData F → Type 0)
      → ((u : CoordUnitWebSocketData F) → P u → Q u)
      → (us : List (ℕ × CoordUnitWebSocketData F)) → Every P us
      → Every Q us
  Every-map P Q h [] a = tt
  Every-map P Q h ((id, u) ∷ us) a = (h u a.0, Every-map P Q h us a.1)

  node_events-Shows :
      (id : ℤ) (event : NodeEventType) (c : Coord F)
      → (check_change eqb_ℤ node_eq c.nodes id event).1 ≡ true
      → (u : CoordUnitWebSocketData F) → Shows c u
      → Shows
          (record c { nodes = (check_change eqb_ℤ node_eq c.nodes id event).0 })
          (node_events id event u)
  unfolding node_events
  node_events-Shows id event c changed u s = (
    changed-Shown eqb_ℤ eqb_ℤ_iff node_eq c.nodes id event u.nodes u.got.nodes u.nodes_change
        changed s.0,
    s.1,
    s.2,
  )

  module _ (serializes : FlushPayload F → Bool) (accepts : CoordUnitWebSocketData F → Bool)
      (always : (p : FlushPayload F) → serializes p ≡ true) where
    flush_unit-Shows :
        (c : Coord F) (u : CoordUnitWebSocketData F)
        → Shows c u
        → (flush_unit serializes accepts u).1 ≡ true
        → Shows c (flush_unit serializes accepts u).0
    unfolding flush_unit
    flush_unit-Shows c u s alive =
        elim (Bool-cases
          (is_empty u.nodes_change && (is_empty u.devise_change && is_empty u.value_change))) [
            | inl quiet ↦
                let here : flush_unit serializes accepts u ≡ (u, true) =
                  simp (flush_unit, quiet) refl in
                subst (λ r. Shows c r.0) (sym here) s
            | inr busy ↦ elim (Bool-cases (accepts u)) [
              | inl taken ↦
                  let here : flush_unit serializes accepts u
                      ≡ (cleared (record u { got = append_payload u.got (payload_of u) }), true) =
                    simp (flush_unit, busy, always, taken) refl in
                  subst (λ r. Shows c r.0) (sym here)
                    (
                      (λ t a.
                          ap (λ l. latest eqb_ℤ t l) (append-nil (u.got.nodes ++ u.nodes_change))
                          ∙ s.0 t a),
                      (λ t a.
                          ap (λ l. latest eqb_ℤ t l) (append-nil (u.got.devices ++ u.devise_change))
                          ∙ s.1 t a),
                      λ t a.
                          ap (λ l. latest str_eq t l) (append-nil (u.got.values ++ u.value_change))
                          ∙ s.2 t a,
                    )
              | inr refused ↦
                  let here : flush_unit serializes accepts u ≡ (cleared u, false) =
                    simp (flush_unit, busy, always, refused) refl in
                  let clash = sym (ap (λ r. r.1) here) ∙ alive in cc
            ]
          ]

    flush_subscribers-Shows :
        (c : Coord F) (us : List (ℕ × CoordUnitWebSocketData F))
        → Every (Shows c) us
        → Every (Shows c) (flush_subscribers serializes accepts us)
    unfolding flush_subscribers
    flush_subscribers-Shows c [] a = tt
    flush_subscribers-Shows c ((id, u) ∷ us) a =
        elim (Bool-cases (flush_unit serializes accepts u).1) [
          | inl alive ↦
              subst
                (λ b. Every (Shows c) (
                  if b
                  then (id, (flush_unit serializes accepts u).0)
                    ∷ flush_subscribers serializes accepts us
                  else flush_subscribers serializes accepts us))
                (sym alive) (flush_unit-Shows c u a.0 alive, flush_subscribers-Shows c us a.1)
          | inr dead ↦
              subst
                (λ b. Every (Shows c) (
                  if b
                  then (id, (flush_unit serializes accepts u).0)
                    ∷ flush_subscribers serializes accepts us
                  else flush_subscribers serializes accepts us))
                (sym dead) (flush_subscribers-Shows c us a.1)
        ]

    -- Where every payload can be serialized, a node event leaves every subscriber that stays with what the
    -- coordinator knows: for each node, device and value that its client asked for, the last change that
    -- it was or will be sent is the state that the coordinator keeps, if it was so before.
    pub on_node_event-Shows :
        (id : ℤ) (event : NodeEventType) (c : Coord F)
        → Every (Shows c) c.subscribers
        → Every
            (Shows (on_node_event serializes accepts id event c))
            (on_node_event serializes accepts id event c).subscribers
    unfolding on_node_event
    on_node_event-Shows id event c a =
        elim (Bool-cases (check_change eqb_ℤ node_eq c.nodes id event).1) [
          | inl changed ↦
              let nodes' = (check_change eqb_ℤ node_eq c.nodes id event).0 in
              let told = each_unit (node_events id event) c.subscribers in
              let c' : Coord F = record c {
                nodes = nodes';
                subscribers = flush_subscribers serializes accepts told;
              } in
              let here : on_node_event serializes accepts id event c ≡ c' =
                simp (on_node_event, changed) refl in
              subst (λ d. Every (Shows d) d.subscribers) (sym here)
                (flush_subscribers-Shows c' told (
                  Every-each_unit (Shows c) (Shows c') (node_events id event)
                    (node_events-Shows id event c changed) c.subscribers a))
          | inr same ↦
              let c' : Coord F = record c {
                nodes = (check_change eqb_ℤ node_eq c.nodes id event).0;
              } in
              let here : on_node_event serializes accepts id event c ≡ c' =
                simp (on_node_event, same) refl in
              subst (λ d. Every (Shows d) d.subscribers) (sym here)
                (Every-map (Shows c) (Shows c')
                  (λ u s. (
                    same-Shown eqb_ℤ eqb_ℤ_iff node_eq c.nodes id event u.nodes
                        (u.got.nodes ++ u.nodes_change) same s.0,
                    s.1,
                    s.2,
                  ))
                  c.subscribers a)
        ]

    note_device-Shows :
        (id : ℤ) (event : DeviceEventType) (c : Coord F)
        → Every (Shows c) c.subscribers
        → Every
            (Shows (note_device serializes accepts id event c))
            (note_device serializes accepts id event c).subscribers
    unfolding note_device device_events
    note_device-Shows id event c a =
        elim (Bool-cases (check_change eqb_ℤ device_eq c.devises id event).1) [
          | inl changed ↦
              let devises' = (check_change eqb_ℤ device_eq c.devises id event).0 in
              let c' : Coord F = record c {
                devises = devises';
                subscribers = each_unit (device_events id event) c.subscribers;
              } in
              let here : note_device serializes accepts id event c ≡ c' =
                simp (note_device, changed) refl in
              subst (λ d. Every (Shows d) d.subscribers) (sym here)
                (Every-each_unit (Shows c) (Shows c') (device_events id event)
                  (λ u s. (
                    s.0,
                    changed-Shown eqb_ℤ eqb_ℤ_iff device_eq c.devises id event u.devises
                        u.got.devices u.devise_change changed s.1,
                    s.2,
                  ))
                  c.subscribers a)
          | inr same ↦
              let c' : Coord F = record c {
                devises = (check_change eqb_ℤ device_eq c.devises id event).0;
              } in
              let here : note_device serializes accepts id event c ≡ c' =
                simp (note_device, same) refl in
              subst (λ d. Every (Shows d) d.subscribers) (sym here)
                (Every-map (Shows c) (Shows c')
                  (λ u s. (
                    s.0,
                    same-Shown eqb_ℤ eqb_ℤ_iff device_eq c.devises id event u.devises
                        (u.got.devices ++ u.devise_change) same s.1,
                    s.2,
                  ))
                  c.subscribers a)
        ]

module _ (fl : Floats) where
  open fl use {F, feq}

  note_value-Shows :
      (tag : String) (value : F) (c : Coord F)
      → Every (Shows c) c.subscribers
      → Every (Shows (note_value fl tag value c)) (note_value fl tag value c).subscribers
  unfolding note_value value_events
  note_value-Shows tag value c a =
      elim (Bool-cases (check_change str_eq feq c.values tag value).1) [
        | inl changed ↦
            let c' : Coord F = record c {
              values = (check_change str_eq feq c.values tag value).0;
              subscribers = each_unit (value_events tag value) c.subscribers;
            } in
            let here : note_value fl tag value c ≡ c' = simp (note_value, changed) refl in
            subst (λ d. Every (Shows d) d.subscribers) (sym here)
              (Every-each_unit (Shows c) (Shows c') (value_events tag value)
                (λ u s. (
                  s.0,
                  s.1,
                  changed-Shown str_eq eq_iff feq c.values tag value u.tags u.got.values
                      u.value_change changed s.2,
                ))
                c.subscribers a)
        | inr same ↦
            let c' : Coord F = record c {
              values = (check_change str_eq feq c.values tag value).0;
            } in
            let here : note_value fl tag value c ≡ c' = simp (note_value, same) refl in
            subst (λ d. Every (Shows d) d.subscribers) (sym here)
              (Every-map (Shows c) (Shows c')
                (λ u s. (
                  s.0,
                  s.1,
                  same-Shown str_eq eq_iff feq c.values tag value u.tags
                      (u.got.values ++ u.value_change) same s.2,
                ))
                c.subscribers a)
      ]

  note_values-Shows :
      (ms : List (ModbusMeasure F)) (c : Coord F)
      → Every (Shows c) c.subscribers
      → Every (Shows (note_values fl ms c)) (note_values fl ms c).subscribers
  unfolding note_values
  note_values-Shows [] c a = a
  note_values-Shows (m ∷ ms) c a =
      note_values-Shows ms (note_value fl m.tag m.measure_value c)
        (note_value-Shows m.tag m.measure_value c a)

  -- Where every payload can be serialized, a device event leaves every subscriber that stays with what
  -- the coordinator knows: for each node, device and value that its client asked for, the last change
  -- that it was or will be sent is the state that the coordinator keeps, if it was so before.
  pub on_device_event-Shows :
      (serializes : FlushPayload F → Bool) (accepts : CoordUnitWebSocketData F → Bool)
      → ((p : FlushPayload F) → serializes p ≡ true)
      → (id : ℤ) (event : DeviceEventType) (measures : List (ModbusMeasure F)) (c : Coord F)
      → Every (Shows c) c.subscribers
      → Every
          (Shows (on_device_event fl serializes accepts id event measures c))
          (on_device_event fl serializes accepts id event measures c).subscribers
  unfolding on_device_event
  on_device_event-Shows serializes accepts always id event measures c a =
      let c1 = note_device serializes accepts id event c in
      let c2 = note_values fl measures c1 in
      flush_subscribers-Shows serializes accepts always c2 c2.subscribers
        (note_values-Shows measures c1 (note_device-Shows serializes accepts always id event c a))
