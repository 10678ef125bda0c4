-- ===== src/Delivery/Rows.antt =====
-- What a pass over rows leaves in the stream (event_delivery.py). `history` is the list of the entries that the stream ever took
-- by XADD, in their order; trimming (MAXLEN) drops entries of the stream, not of the history.
use mathlib.Core.List.{append-nil, append_assoc}
use goblin_king.Base.{
  ℕ, suc, ◌+◌, ◌<◌, String, ◌==◌, eq_iff, ◌≡◌, refl, sym, ap, ◌∙◌, subst, Bool, true, ◌&&◌, some,
  List, [], ◌∷◌, ◌++◌, map, any, arith, eqb, All, All-map, All-append, Option-cases, inl, inr, ◌⊎◌,
}
use goblin_king.Contracts.{EventRecord}
use goblin_king.Store.Events.Causal.{IsCausal}
use goblin_king.Delivery.{Redis, Codec, reached, append, deliver_rows}
use goblin_king.Delivery.Pending.{last_sequence}
use goblin_king.Delivery.Batches.{deliver_rows-none, deliver_rows-some, deliver_rows-nil}

-- What delivery relies on of Redis and of JSON: an accepted entry comes last in the history, an entry
-- that is read was accepted, an id above all others is accepted, and a text loads as itself.
pub record IsStream {S : Type 0} (redis : Redis S) (codec : Codec) (history : S → List (ℕ × String))
    : Type 0 where
  pub grows :
      (id : ℕ) (event : String) (stream appended : S)
      → redis.xadd id event stream ≡ some appended
      → history appended ≡ history stream ++ (id, event) ∷ []
  pub held :
      (id : ℕ) (event : String) (stream : S)
      → redis.xrange id stream ≡ some event
      → any (λ entry. eqb entry.0 id && entry.1 == event) (history stream) ≡ true
  pub accepts :
      (id : ℕ) (event : String) (stream : S)
      → All (λ entry. entry.0 < id) (history stream)
      → (appended : S) × (redis.xadd id event stream ≡ some appended)
  pub loads : (event : String) → codec.same_payload event event ≡ true

-- The entry of an event.
abbrev pub entry_of : Codec → (offset : ℕ) → EventRecord → ℕ × String
entry_of codec offset event = (offset + event.sequence, codec.dumps event)

-- The history has the event's payload under its id.
abbrev pub is_stored : Codec → (offset : ℕ) → EventRecord → List (ℕ × String) → Bool
is_stored codec offset event history =
    any
      (λ entry.
        eqb entry.0 (offset + event.sequence) && codec.same_payload entry.1 (codec.dumps event))
      history

-- Entries that were sent for some of the events, in their order.
pub data Sent (codec : Codec) (offset : ℕ) : List EventRecord → List (ℕ × String) → Type 0 where
  done : Sent codec offset [] []
  sent :
      {events : List EventRecord} {entries : List (ℕ × String)} (event : EventRecord)
      → Sent codec offset events entries
      → Sent codec offset (event ∷ events) (entry_of codec offset event ∷ entries)
  skipped :
      {events : List EventRecord} {entries : List (ℕ × String)} (event : EventRecord)
      → Sent codec offset events entries
      → Sent codec offset (event ∷ events) entries

any-snoc :
    (p : ℕ × String → Bool) (h : List (ℕ × String)) (x : ℕ × String)
    → p x ≡ true
    → any p (h ++ x ∷ []) ≡ true
any-snoc p [] x e = ground arith
any-snoc p (y ∷ h) x e = ground (arith, any-snoc p h x e)

any-append :
    (p : ℕ × String → Bool) (h more : List (ℕ × String)) → any p h ≡ true → any p (h ++ more) ≡ true
any-append p [] more e = cc
any-append p (y ∷ h) more e = ground (arith, any-append p h more)

module _ {S : Type 0} (redis : Redis S) (codec : Codec) (history : S → List (ℕ × String))
    (laws : IsStream redis codec history) (offset : ℕ) where
  held_is_stored :
      (event : EventRecord) (text : String) (h : List (ℕ × String))
      → codec.same_payload text (codec.dumps event) ≡ true
      → any (λ entry. eqb entry.0 (offset + event.sequence) && entry.1 == text) h ≡ true
      → is_stored codec offset event h ≡ true
  held_is_stored event text [] same e = cc
  held_is_stored event text (x ∷ h) same e =
      ground (arith, eq_iff x.1 text, held_is_stored event text h same)

  -- One append leaves the event stored: by a new entry at the end, or by one that was there.
  append-stored :
      (event : EventRecord) (stream appended : S)
      → append redis codec offset event stream ≡ some appended
      → (is_stored codec offset event (history appended) ≡ true)
        × ((history appended ≡ history stream ++ entry_of codec offset event ∷ [])
            ⊎ (history appended ≡ history stream))
  unfolding append
  append-stored event stream appended h =
      elim (Option-cases (redis.xadd (offset + event.sequence) (codec.dumps event) stream)) [
        | inr (next, e) ↦
            let same : next ≡ appended = ground arith in
            let grown = laws.grows (offset + event.sequence) (codec.dumps event) stream next e in
            let grown' : history appended ≡ history stream ++ entry_of codec offset event ∷ [] =
              subst (λ s. history s ≡ history stream ++ entry_of codec offset event ∷ []) same
                grown in
            let loads = laws.loads (codec.dumps event) in
            (
              rw grown' (any-snoc _ (history stream) (entry_of codec offset event) (ground arith)),
              inl grown',
            )
        | inl e ↦ elim (Option-cases (redis.xrange (offset + event.sequence) stream)) [
          | inl f ↦ ground arith
          | inr (text, f) ↦
              let same : codec.same_payload text (codec.dumps event) ≡ true = ground arith in
              let kept : stream ≡ appended = ground arith in
              let found = laws.held (offset + event.sequence) text stream f in
              (
                subst (λ s. is_stored codec offset event (history s) ≡ true) kept
                    (held_is_stored event text (history stream) same found),
                inr (ap history (sym kept)),
              )
        ]
      ]

  -- A pass that reaches its end leaves every row stored, and what it sent is in the rows' order.
  pub deliver_rows-stored :
      (rows : List EventRecord) (cursor next : ℕ) (stream appended : S)
      → deliver_rows redis codec offset rows cursor stream ≡ reached next appended
      → (entries : List (ℕ × String)) × (history appended ≡ history stream ++ entries)
        × Sent codec offset rows entries
        × All (λ row. is_stored codec offset row (history appended) ≡ true) rows
  deliver_rows-stored [] cursor next stream appended h =
      let e = deliver_rows-nil redis codec offset cursor stream in
      let same : stream ≡ appended = cc in
      ([], rw (sym same) (sym (append-nil (history stream))), done, tt)
  deliver_rows-stored (row ∷ rows) cursor next stream appended h =
      elim (Option-cases (append redis codec offset row stream)) [
        | inl e ↦ let f = deliver_rows-none redis codec offset row rows cursor stream e in cc
        | inr (mid, e) ↦
            let f = deliver_rows-some redis codec offset row rows cursor stream mid e in
            let (entries, grown, order, all) =
              deliver_rows-stored rows row.sequence next mid appended (sym f ∙ h) in
            let (here, growth) = append-stored row stream mid e in
            let stays : is_stored codec offset row (history appended) ≡ true =
              rw grown (any-append _ (history mid) entries here) in
            elim growth [
              | inl one ↦ (
                entry_of codec offset row ∷ entries,
                grown
                    ∙ ap (λ l. l ++ entries) one
                    ∙ append_assoc (history stream) (entry_of codec offset row ∷ []) entries,
                sent row order,
                (stays, all),
              )
              | inr none_sent ↦ (
                entries,
                grown ∙ ap (λ l. l ++ entries) none_sent,
                skipped row order,
                (stays, all),
              )
            ]
      ]

  append-accepted :
      (row : EventRecord) (stream mid : S)
      → redis.xadd (offset + row.sequence) (codec.dumps row) stream ≡ some mid
      → append redis codec offset row stream ≡ some mid
  unfolding append
  append-accepted row stream mid e = rw (append, e) refl

  -- Where every id of the history is at or below the cursor's, each row is accepted.
  pub deliver_rows-accepted :
      (rows : List EventRecord) (cursor : ℕ) (stream : S)
      → IsCausal rows
      → All (λ row. cursor < row.sequence) rows
      → All (λ entry. entry.0 < offset + suc cursor) (history stream)
      → (appended : S) × (deliver_rows redis codec offset rows cursor stream
          ≡ reached (last_sequence cursor rows) appended)
        × (history appended ≡ history stream ++ map (entry_of codec offset) rows)
  unfolding last_sequence
  deliver_rows-accepted [] cursor stream causal above below =
      (stream, deliver_rows-nil redis codec offset cursor stream, sym (append-nil (history stream)))
  deliver_rows-accepted (row ∷ rows) cursor stream causal above below =
      let first = above.0 in
      let (mid, e) =
        laws.accepts (offset + row.sequence) (codec.dumps row) stream
          (All-map _ _ (λ x p. omega arith) (history stream) below) in
      let grown = laws.grows (offset + row.sequence) (codec.dumps row) stream mid e in
      let below' : All (λ entry. entry.0 < offset + suc row.sequence) (history mid) =
        subst (All _) (sym grown) (
          All-append _ (history stream) _ (All-map _ _ (λ x p. omega arith) (history stream) below)
            (omega arith, tt)) in
      let (appended, f, all) =
        deliver_rows-accepted rows row.sequence mid causal.1
          (All-map _ _ (λ y p. p.0) rows causal.0) below' in
      (
        appended,
        deliver_rows-some redis codec offset row rows cursor stream mid
              (append-accepted row stream mid e)
            ∙ f,
        all
            ∙ ap (λ l. l ++ map (entry_of codec offset) rows) grown
            ∙ append_assoc (history stream) (entry_of codec offset row ∷ [])
                (map (entry_of codec offset) rows),
      )
