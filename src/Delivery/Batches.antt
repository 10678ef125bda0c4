-- ===== src/Delivery/Batches.antt =====
-- Delivery in batches of 100 is one pass over the pending events, and the loop ends.
use goblin_king.Base.{
  ℕ, zero, suc, ◌-◌, ◌<◌, ◌≤◌, ◌≡◌, refl, true, false, none, some, List, [], ◌∷◌, ◌++◌, take, drop,
  take-append-drop, arith, ltb, All, All-map, Bool-cases, Option-cases, inl, inr, ◌⊎◌, max, ap, ◌∙◌,
  subst, sym,
}
use goblin_king.Contracts.{EventRecord}
use goblin_king.Table.{select_where}
use goblin_king.Store.Events.Causal.{IsCausal}
use goblin_king.Delivery.{
  Redis, Codec, Progress, reached, failed, out_of_fuel, pending, next_batch, append, deliver_rows,
  deliver_loop,
}
use goblin_king.Delivery.Pending.{
  last_sequence, order_by-causal, select_where-IsCausal, pending-pending, pending-none,
  pending-bounds, select_where-after,
}

-- A pass that reached a cursor has reached the target too.
abbrev pub settle : {S : Type 0} → ℕ → Progress S → Progress S
settle target (reached cursor stream) = reached (max cursor target) stream
settle target (failed stream) = failed stream
settle target out_of_fuel = out_of_fuel

module _ {S : Type 0} (redis : Redis S) (codec : Codec) (offset : ℕ) where
  -- Delivery of the rest, where a pass has reached a cursor.
  abbrev and_then : List EventRecord → Progress S → Progress S
  and_then rest (reached cursor stream) = deliver_rows redis codec offset rest cursor stream
  and_then rest (failed stream) = failed stream
  and_then rest out_of_fuel = out_of_fuel

  pub deliver_rows-nil :
      (cursor : ℕ) (stream : S)
      → deliver_rows redis codec offset [] cursor stream ≡ reached cursor stream
  unfolding deliver_rows
  deliver_rows-nil cursor stream = refl

  pub deliver_rows-none :
      (row : EventRecord) (rows : List EventRecord) (cursor : ℕ) (stream : S)
      → append redis codec offset row stream ≡ none
      → deliver_rows redis codec offset (row ∷ rows) cursor stream ≡ failed stream
  unfolding deliver_rows
  deliver_rows-none row rows cursor stream e = rw (deliver_rows, e) refl

  pub deliver_rows-some :
      (row : EventRecord) (rows : List EventRecord) (cursor : ℕ) (stream appended : S)
      → append redis codec offset row stream ≡ some appended
      → deliver_rows redis codec offset (row ∷ rows) cursor stream
        ≡ deliver_rows redis codec offset rows row.sequence appended
  unfolding deliver_rows
  deliver_rows-some row rows cursor stream appended e = rw (deliver_rows, e) refl

  deliver_rows-append :
      (rows rest : List EventRecord) (cursor : ℕ) (stream : S)
      → deliver_rows redis codec offset (rows ++ rest) cursor stream
        ≡ and_then rest (deliver_rows redis codec offset rows cursor stream)
  deliver_rows-append [] rest cursor stream = rw (deliver_rows-nil cursor stream) refl
  deliver_rows-append (row ∷ rows) rest cursor stream =
      elim (Option-cases (append redis codec offset row stream)) [
        | inl e ↦
            rw
              (
                deliver_rows-none row rows cursor stream e,
                deliver_rows-none row (rows ++ rest) cursor stream e,
              )
              refl
        | inr (appended, e) ↦
            rw
              (
                deliver_rows-some row rows cursor stream appended e,
                deliver_rows-some row (rows ++ rest) cursor stream appended e,
              )
              (deliver_rows-append rows rest row.sequence appended)
      ]

  -- A pass stops at the last row's sequence or at an error.
  pub deliver_rows-cases :
      (rows : List EventRecord) (cursor : ℕ) (stream : S)
      → ((appended : S) × (deliver_rows redis codec offset rows cursor stream
            ≡ reached (last_sequence cursor rows) appended))
        ⊎ ((appended : S) × (deliver_rows redis codec offset rows cursor stream ≡ failed appended))
  unfolding last_sequence
  deliver_rows-cases [] cursor stream = inl (stream, deliver_rows-nil cursor stream)
  deliver_rows-cases (row ∷ rows) cursor stream =
      elim (Option-cases (append redis codec offset row stream)) [
        | inl e ↦ inr (stream, deliver_rows-none row rows cursor stream e)
        | inr (appended, e) ↦
            rw (deliver_rows-some row rows cursor stream appended e)
              (deliver_rows-cases rows row.sequence appended)
      ]

  -- One pass of the loop, where events are pending.
  deliver_loop-batch :
      (fuel target cursor : ℕ) (events : List EventRecord) (stream : S) (row : EventRecord)
      (rows : List EventRecord)
      → ltb cursor target ≡ true
      → next_batch cursor target events ≡ row ∷ rows
      → deliver_loop (suc fuel) redis codec events target offset cursor stream
        ≡ elim (deliver_rows redis codec offset (row ∷ rows) cursor stream) [
          | reached next appended ↦ deliver_loop fuel redis codec events target offset next appended
          | failed appended ↦ failed appended
          | out_of_fuel ↦ out_of_fuel
        ]
  unfolding deliver_loop
  deliver_loop-batch fuel target cursor events stream row rows less e =
      rw (deliver_loop, less, e) refl

  deliver_loop-stop :
      (fuel target cursor : ℕ) (events : List EventRecord) (stream : S)
      → ltb cursor target ≡ false
      → deliver_loop (suc fuel) redis codec events target offset cursor stream
        ≡ reached cursor stream
  unfolding deliver_loop
  deliver_loop-stop fuel target cursor events stream e = rw (deliver_loop, e) refl

  deliver_loop-done :
      (fuel target cursor : ℕ) (events : List EventRecord) (stream : S)
      → ltb cursor target ≡ true
      → next_batch cursor target events ≡ []
      → deliver_loop (suc fuel) redis codec events target offset cursor stream
        ≡ reached target stream
  unfolding deliver_loop
  deliver_loop-done fuel target cursor events stream less e = rw (deliver_loop, less, e) refl

  -- A batch is the first rows of the pending ones.
  next_batch-take :
      (target cursor : ℕ) (events : List EventRecord)
      → IsCausal events
      → next_batch cursor target events ≡ take 100 (pending cursor target events)
  unfolding next_batch
  next_batch-take target cursor events h =
      ap (λ rows. take 100 rows)
        (order_by-causal (pending cursor target events) (select_where-IsCausal _ events h))

  -- Behind a batch, the rest of the rows is pending.
  pending-rest :
      (n target cursor : ℕ) (events : List EventRecord)
      → IsCausal events
      → (row : EventRecord) (rows : List EventRecord) → pending cursor target events ≡ row ∷ rows
      → (cursor < last_sequence cursor (row ∷ take n rows))
        × (pending (last_sequence cursor (row ∷ take n rows)) target events ≡ drop n rows)
  unfolding last_sequence
  pending-rest n target cursor events h row rows e =
      let causal : IsCausal (row ∷ rows) = subst IsCausal e (select_where-IsCausal _ events h) in
      let bounds : All (λ event. (cursor < event.sequence) × (event.sequence ≤ target))
          (row ∷ rows) =
        subst (All _) e (pending-bounds cursor target events) in
      let above = All-map _ (λ event. cursor < event.sequence) (λ _ b. b.0) (row ∷ rows) bounds in
      let (_, taken) = select_where-after (suc n) cursor (row ∷ rows) causal above in
      let (up, _) =
        select_where-after n row.sequence rows causal.1 (All-map _ _ (λ y p. p.0) rows causal.0) in
      let further : cursor < last_sequence row.sequence (take n rows) =
        let first = above.0 in omega arith in
      (
        further,
        pending-pending cursor (last_sequence row.sequence (take n rows)) target events
              (omega arith)
            ∙ ap
                (select_where
                  (λ event. ltb (last_sequence row.sequence (take n rows)) event.sequence))
                e
            ∙ taken,
      )

  deliver_loop-step :
      (fuel target cursor : ℕ) (events : List EventRecord) (stream : S)
      → IsCausal events
      → ltb cursor target ≡ true
      → (rows : List EventRecord) → pending cursor target events ≡ rows
      → target - cursor < suc fuel
      → ((next : ℕ) (appended : S)
          → target - next < fuel
          → deliver_loop fuel redis codec events target offset next appended
            ≡ settle target
                (deliver_rows redis codec offset (pending next target events) next appended))
      → deliver_loop (suc fuel) redis codec events target offset cursor stream
        ≡ settle target
            (deliver_rows redis codec offset (pending cursor target events) cursor stream)
  deliver_loop-step fuel target cursor events stream h less [] e enough later =
      rw
        (
          deliver_loop-done fuel target cursor events stream less
              (next_batch-take target cursor events h ∙ ap (λ rows. take 100 rows) e),
          e,
          deliver_rows-nil cursor stream,
        )
        (ap (λ n. reached n stream) (ground arith))
  deliver_loop-step fuel target cursor events stream h less (row ∷ rows) e enough later =
      let batch = row ∷ take 99 rows in
      let rest = drop 99 rows in
      let last = last_sequence cursor batch in
      let split : batch ++ rest ≡ row ∷ rows = ap (λ l. row ∷ l) (take-append-drop 99 rows) in
      let next : next_batch cursor target events ≡ batch =
        next_batch-take target cursor events h ∙ ap (λ l. take 100 l) e in
      let (further, left) = pending-rest 99 target cursor events h row rows e in
      rw
        (
          deliver_loop-batch fuel target cursor events stream row (take 99 rows) less next,
          e,
          sym split,
          deliver_rows-append batch rest cursor stream,
        )
        (elim (deliver_rows-cases batch cursor stream) [
          | inl (appended, r) ↦ rw (r, later last appended (ground arith), left) refl
          | inr (appended, r) ↦ rw r refl
        ])

  -- With the fuel of `deliver_through` and more, the loop, in batches of 100, is one pass over all
  -- pending events: it ends, where the table of events is in causal order.
  pub deliver_loop-rows :
      (fuel target cursor : ℕ) (events : List EventRecord) (stream : S)
      → IsCausal events
      → target - cursor < fuel
      → deliver_loop fuel redis codec events target offset cursor stream
        ≡ settle target
            (deliver_rows redis codec offset (pending cursor target events) cursor stream)
  deliver_loop-rows zero target cursor events stream h enough = absurd (omega arith)
  deliver_loop-rows (suc fuel) target cursor events stream h enough =
      elim (Bool-cases (ltb cursor target)) [
        | inl less ↦
            deliver_loop-step fuel target cursor events stream h less (pending cursor target events)
              refl enough
              (λ next appended bound. deliver_loop-rows fuel target next events appended h bound)
        | inr e ↦
            rw
              (
                deliver_loop-stop fuel target cursor events stream e,
                pending-none cursor target events (ground arith),
                deliver_rows-nil cursor stream,
              )
              (ap (λ n. reached n stream) (ground arith))
      ]
