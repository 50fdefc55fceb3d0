-- ===== src/Jobs/Outbox/Laws.antt =====
-- Invariants of the outbox over every sequence of steps.
use nest_js_tutorial.Base.{
  ℕ, ◌≤◌, ◌≡◌, refl, sym, ap, ◌∙◌, subst, false, Option, none, some, Text, ◌==◌, ==_iff, List, [],
  ◌∷◌, map, find, count, arith, if◌then◌else◌, All, All-append, find-map, find-some, Bool-cases,
  inl, inr, count-append,
}
use nest_js_tutorial.Database.{WelcomeMailOutbox}
use nest_js_tutorial.Jobs.Outbox.{
  is_ready, ready_entries, claim, written, save_entries, is_leased_by, dispatch, make_available,
  mark_rows, release_rows,
}
use nest_js_tutorial.Jobs.Outbox.Lookup.{
  find-select, find-order, find-take, find-none-map, find-appended, count-same, All-map,
}
use nest_js_tutorial.Jobs.Outbox.Steps.{
  Step, registered, claimed, marked, released, Reachable, initially, next, has_id, HasUniqueIds,
  IsStored, IsConsistent, written-IsConsistent, marked-IsConsistent, released-IsConsistent,
  claimed_entries-IsConsistent,
}

Step-IsConsistent :
    (rows rows' : List WelcomeMailOutbox)
    → Step rows rows'
    → All IsConsistent rows
    → All IsConsistent rows'
unfolding save_entries mark_rows release_rows
Step-IsConsistent _ _ (registered e rows a b c d new) h =
    All-append IsConsistent rows (e ∷ []) h (simp (a, b, c, d), tt)
Step-IsConsistent _ _ (claimed now expires limit owner rows) h =
    let entries = map (claim owner expires) (ready_entries now limit rows) in
    All-map IsConsistent IsConsistent
      (λ row. written row (find (λ e. WelcomeMailOutbox.id e == WelcomeMailOutbox.id row) entries))
      rows
      (λ row.
        written-IsConsistent entries row _
          (claimed_entries-IsConsistent now expires limit owner rows) refl)
      h
Step-IsConsistent _ _ (marked now id owner rows) h =
    All-map IsConsistent IsConsistent _ rows (marked-IsConsistent now id owner) h
Step-IsConsistent _ _ (released now id owner rows) h =
    All-map IsConsistent IsConsistent _ rows (released-IsConsistent now id owner) h

-- Whatever is done to the outbox, the columns of each row agree with its status, if they did at first:
-- a pending row has no lease, a row that is being dispatched has one, and a dispatched row has a time
-- and no lease.
pub outbox-IsConsistent :
    (start rows : List WelcomeMailOutbox)
    → Reachable start rows
    → All IsConsistent start
    → All IsConsistent rows
outbox-IsConsistent start _ initially h = h
outbox-IsConsistent start _ (next before rows reached step) h =
    Step-IsConsistent before rows step (outbox-IsConsistent start before reached h)

written-id :
    (entries : List WelcomeMailOutbox) (row : WelcomeMailOutbox) (o : Option WelcomeMailOutbox)
    → find (λ e. e.id == row.id) entries ≡ o
    → (written row o).id ≡ row.id
written-id entries row none h = refl
written-id entries row (some e) h =
    (==_iff e.id row.id).0 (find-some (λ e. WelcomeMailOutbox.id e == row.id) entries h)

written-has_id :
    (id : Text) (entries : List WelcomeMailOutbox) (row : WelcomeMailOutbox)
    → has_id id (written row (find (λ e. e.id == row.id) entries)) ≡ has_id id row
written-has_id id entries row = ap (λ s. s == id) (written-id entries row _ refl)

marked-has_id :
    (now : ℕ) (id id' owner : Text) (row : WelcomeMailOutbox)
    → has_id id (if is_leased_by id' owner row then dispatch now row else row) ≡ has_id id row
marked-has_id now id id' owner row = ground arith

released-has_id :
    (now : ℕ) (id id' owner : Text) (row : WelcomeMailOutbox)
    → has_id id (if is_leased_by id' owner row then make_available now row else row) ≡ has_id id row
released-has_id now id id' owner row = ground arith

Step-HasUniqueIds :
    (rows rows' : List WelcomeMailOutbox) → Step rows rows' → HasUniqueIds rows → HasUniqueIds rows'
unfolding save_entries mark_rows release_rows count
Step-HasUniqueIds _ _ (registered e rows a b c d new) h id = elim (Bool-cases (e.id == id)) [
  | inl same ↦
      let eq : e.id ≡ id = (==_iff e.id id).0 same in
      let none_left : count (has_id id) rows ≡ 0 = subst (λ i. count (has_id i) rows ≡ 0) eq new in
      ground (arith, count-append (has_id id) rows (e ∷ []))
  | inr other ↦ ground (arith, h id, count-append (has_id id) rows (e ∷ []))
]
Step-HasUniqueIds _ _ (claimed now expires limit owner rows) h id =
    subst (λ n. n ≤ 1)
      (sym (
        count-same (has_id id) _ rows
          (written-has_id id (map (claim owner expires) (ready_entries now limit rows)))))
      (h id)
Step-HasUniqueIds _ _ (marked now id' owner rows) h id =
    subst (λ n. n ≤ 1) (sym (count-same (has_id id) _ rows (marked-has_id now id id' owner))) (h id)
Step-HasUniqueIds _ _ (released now id' owner rows) h id =
    subst (λ n. n ≤ 1) (sym (count-same (has_id id) _ rows (released-has_id now id id' owner)))
      (h id)

-- A row that is not ready is not among the entries that are claimed.
not_claimed :
    (now expires limit : ℕ) (owner : Text) (rows : List WelcomeMailOutbox) (row : WelcomeMailOutbox)
    → IsStored row rows
    → is_ready now row ≡ false
    → count (has_id row.id) rows ≤ 1
    → find (has_id row.id) (map (claim owner expires) (ready_entries now limit rows)) ≡ none
unfolding ready_entries claim
not_claimed now expires limit owner rows row stored not_ready unique =
    let p = has_id row.id in
    find-none-map p (claim owner expires) _ (λ e. refl)
      (find-take p limit _
        (find-order p _ (find-select p (is_ready now) rows stored not_ready unique)))

-- Where the ids are unique, a claim leaves alone every row that is not ready at its time: one that has
-- been dispatched, one that is due later, and one whose lease has not expired yet, which its owner
-- therefore has to itself.
pub claim-keeps :
    (now expires limit : ℕ) (owner : Text) (rows : List WelcomeMailOutbox) (row : WelcomeMailOutbox)
    → HasUniqueIds rows
    → IsStored row rows
    → is_ready now row ≡ false
    → IsStored row (save_entries (map (claim owner expires) (ready_entries now limit rows)) rows)
unfolding save_entries
claim-keeps now expires limit owner rows row unique stored not_ready =
    let entries = map (claim owner expires) (ready_entries now limit rows) in
    find-map (has_id row.id)
      (λ r. written r (find (λ e. WelcomeMailOutbox.id e == WelcomeMailOutbox.id r) entries)) rows
      (written-has_id row.id entries) stored
    ∙ ap (λ o. some (written row o))
        (not_claimed now expires limit owner rows row stored not_ready (unique row.id))

dispatched_not_ready :
    (now t : ℕ) (row : WelcomeMailOutbox) → row.dispatched_at ≡ some t → is_ready now row ≡ false
unfolding is_ready
dispatched_not_ready now t row h = simp h

not_leased :
    (id owner : Text) (row : WelcomeMailOutbox)
    → row.lease_owner ≡ none
    → is_leased_by id owner row ≡ false
not_leased id owner row h = ground (arith, h)

Step-dispatched :
    (rows rows' : List WelcomeMailOutbox) (row : WelcomeMailOutbox) (t : ℕ)
    → Step rows rows'
    → HasUniqueIds rows
    → row.dispatched_at ≡ some t
    → row.lease_owner ≡ none
    → IsStored row rows
    → IsStored row rows'
unfolding mark_rows release_rows
Step-dispatched _ _ row t (registered e rows a b c d new) unique done free stored =
    find-appended (has_id row.id) rows (e ∷ []) stored
Step-dispatched _ _ row t (claimed now expires limit owner rows) unique done free stored =
    claim-keeps now expires limit owner rows row unique stored (dispatched_not_ready now t row done)
Step-dispatched _ _ row t (marked now id owner rows) unique done free stored =
    find-map (has_id row.id) _ rows (marked-has_id now row.id id owner) stored
    ∙ ap (λ b. some (if b then dispatch now row else row)) (not_leased id owner row free)
Step-dispatched _ _ row t (released now id owner rows) unique done free stored =
    find-map (has_id row.id) _ rows (released-has_id now row.id id owner) stored
    ∙ ap (λ b. some (if b then make_available now row else row)) (not_leased id owner row free)

Reachable-HasUniqueIds :
    (start rows : List WelcomeMailOutbox)
    → Reachable start rows
    → HasUniqueIds start
    → HasUniqueIds rows
Reachable-HasUniqueIds start _ initially h = h
Reachable-HasUniqueIds start _ (next before rows reached step) h =
    Step-HasUniqueIds before rows step (Reachable-HasUniqueIds start before reached h)

-- A mail that has been dispatched is never claimed again: whatever is done to the outbox, and by
-- however many relays, its row stays as it is, if the ids are unique.
pub dispatched_stays :
    (start rows : List WelcomeMailOutbox) (row : WelcomeMailOutbox) (t : ℕ)
    → Reachable start rows
    → HasUniqueIds start
    → row.dispatched_at ≡ some t
    → row.lease_owner ≡ none
    → IsStored row start
    → IsStored row rows
dispatched_stays start _ row t initially unique done free stored = stored
dispatched_stays start _ row t (next before rows reached step) unique done free stored =
    Step-dispatched before rows row t step (Reachable-HasUniqueIds start before reached unique) done
      free (dispatched_stays start before row t reached unique done free stored)
