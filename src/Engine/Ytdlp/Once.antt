-- ===== src/Engine/Ytdlp/Once.antt =====
-- What a batch of status requests answers and leaves in the table.
use opendebrid.Prelude.{
  ◌≡◌, refl, sym, ap, ◌∙◌, subst, ◌⊎◌, Bool, true, false, ◌&&◌, ◌||◌, Option, none, some, List, [],
  ◌∷◌, Text, eq_text, eq_text_iff, eq_text_refl, arith, if◌then◌else◌, Bool-cases, inl, inr,
}
use opendebrid.Engine.Aria2.{StatusMap, status_in}
use opendebrid.Engine.Aria2.Answered.{asked}
use opendebrid.Engine.Ytdlp.{
  JobEntry, JobMap, entry_in, without, snapshot, set_status, drop_ended, statuses_from,
  batch_status,
}
use opendebrid.Node.Poll.{JobStatus, is_terminal}

-- Two texts that are not told apart are told apart from a third alike.
same_text : (a b k : Text) → eq_text a b ≡ true → eq_text a k ≡ eq_text b k
same_text a b k e = ap (λ t. eq_text t k) ((eq_text_iff a b).0 e)

other_text : (a b k : Text) → eq_text a b ≡ false → eq_text b k ≡ true → eq_text a k ≡ false
other_text a b k e f = ap (λ t. eq_text a t) (sym ((eq_text_iff b k).0 f)) ∙ e

entry_in-without :
    (id k : Text) (m : JobMap)
    → entry_in (without id m) k ≡ (if eq_text id k then none else entry_in m k)
entry_in-without id k [] = ground arith
entry_in-without id k (e ∷ m) = elim (Bool-cases (eq_text e.0 id)) [
  | inl q ↦ rw q (ground (arith, entry_in-without id k m, same_text e.0 id k q))
  | inr q ↦ rw q (elim (Bool-cases (eq_text id k)) [
    | inl f ↦ ground (arith, entry_in-without id k m, other_text e.0 id k q f, f)
    | inr f ↦ ground (arith, entry_in-without id k m, f)
  ])
]

-- The entry that a batch leaves, by whether it asks for it.
abbrev pub left : Bool → Option JobEntry → Option JobEntry
left asked_for none = none
left asked_for (some e) = if asked_for && is_terminal e.status then none else some e

-- The status that a batch answers, over one from before.
abbrev pub answered : Bool → Text → Option JobEntry → Option JobStatus → Option JobStatus
answered true k (some e) old = some (snapshot k e)
answered _ k _ old = old

left_twice : (a b : Bool) (o : Option JobEntry) → left a (left b o) ≡ left (b || a) o
left_twice a b none = refl
left_twice a b (some e) = ground arith

answered_twice :
    (a b : Bool) (k : Text) (o : Option JobEntry) (old : Option JobStatus)
    → answered a k (left b o) (answered b k o old) ≡ answered (b || a) k o old
answered_twice a b k none old = ground arith
answered_twice a b k (some e) old = ground arith

left-false : (o : Option JobEntry) → left false o ≡ o
left-false none = refl
left-false (some e) = refl

-- Another key's entry stands as before.
entry_in-drop_ended_other :
    (id k : Text) (o : Option JobEntry) (m : JobMap)
    → eq_text id k ≡ false
    → entry_in (drop_ended id o m) k ≡ entry_in m k
entry_in-drop_ended_other id k none m q = refl
entry_in-drop_ended_other id k (some e) m q = elim (Bool-cases (is_terminal e.status)) [
  | inl t ↦ rw t (entry_in-without id k m ∙ rw q refl)
  | inr t ↦ rw t refl
]

entry_in-drop_ended_self :
    (id : Text) (o : Option JobEntry) (m : JobMap)
    → entry_in m id ≡ o
    → entry_in (drop_ended id o m) id ≡ left true o
entry_in-drop_ended_self id none m e = e
entry_in-drop_ended_self id (some x) m e = elim (Bool-cases (is_terminal x.status)) [
  | inl t ↦ rw t (entry_in-without id id m ∙ rw (eq_text_refl id) refl)
  | inr t ↦ rw t e
]

entry_in-drop_ended :
    (id k : Text) (m : JobMap)
    → entry_in (drop_ended id (entry_in m id) m) k ≡ left (eq_text id k) (entry_in m k)
entry_in-drop_ended id k m = elim (Bool-cases (eq_text id k)) [
  | inr q ↦
      rw q (entry_in-drop_ended_other id k (entry_in m id) m q ∙ sym (left-false (entry_in m k)))
  | inl q ↦ rw q (
      subst (λ t. entry_in (drop_ended id (entry_in m id) m) t ≡ left true (entry_in m t))
        ((eq_text_iff id k).0 q) (entry_in-drop_ended_self id (entry_in m id) m refl))
]

status_in-set_status :
    (id k : Text) (o : Option JobEntry) (r : StatusMap)
    → (eq_text id k ≡ false) ⊎ (id ≡ k)
    → status_in (set_status id o r) k ≡ answered (eq_text id k) k o (status_in r k)
status_in-set_status id k none r c = ground arith
status_in-set_status id k (some e) r (inl q) = rw q refl
status_in-set_status id k (some e) r (inr q) =
    subst
      (λ t.
        status_in (set_status id (some e) r) t ≡ answered (eq_text id t) t (some e) (status_in r t))
      q (rw (eq_text_refl id) refl)

-- The answer for a key, from the entry of the id or that of the key.
answered-entry_in :
    (id k : Text) (m : JobMap) (old : Option JobStatus)
    → answered (eq_text id k) k (entry_in m id) old ≡ answered (eq_text id k) k (entry_in m k) old
answered-entry_in id k m old = elim (Bool-cases (eq_text id k)) [
  | inl q ↦ ap (λ t. answered (eq_text id k) k (entry_in m t) old) ((eq_text_iff id k).0 q)
  | inr q ↦ rw q (ground arith)
]

same_or_other : (a b : Text) → (eq_text a b ≡ false) ⊎ (a ≡ b)
same_or_other a b = elim (Bool-cases (eq_text a b)) [
  | inl q ↦ inr ((eq_text_iff a b).0 q)
  | inr q ↦ inl q
]

entry_in-statuses_from :
    (k : Text) (ids : List Text) (m : JobMap) (r : StatusMap)
    → entry_in (statuses_from ids m r).1 k ≡ left (asked k ids) (entry_in m k)
entry_in-statuses_from k [] m r = sym (left-false (entry_in m k))
entry_in-statuses_from k (id ∷ ids) m r =
    entry_in-statuses_from k ids (drop_ended id (entry_in m id) m) (set_status id (entry_in m id) r)
    ∙ (ap (left (asked k ids)) (entry_in-drop_ended id k m)
        ∙ left_twice (asked k ids) (eq_text id k) (entry_in m k))

status_in-statuses_from :
    (k : Text) (ids : List Text) (m : JobMap) (r : StatusMap)
    → status_in (statuses_from ids m r).0 k
      ≡ answered (asked k ids) k (entry_in m k) (status_in r k)
status_in-statuses_from k [] m r = ground arith
status_in-statuses_from k (id ∷ ids) m r =
    status_in-statuses_from k ids (drop_ended id (entry_in m id) m)
      (set_status id (entry_in m id) r)
    ∙ (ap (λ o. answered (asked k ids) k o (status_in (set_status id (entry_in m id) r) k))
          (entry_in-drop_ended id k m)
        ∙ (ap (answered (asked k ids) k (left (eq_text id k) (entry_in m k))) (
              status_in-set_status id k (entry_in m id) r (same_or_other id k)
              ∙ answered-entry_in id k m (status_in r k))
            ∙ answered_twice (asked k ids) (eq_text id k) k (entry_in m k) (status_in r k)))

-- A batch answers the state of each download that it asks for and that is in the table, and nothing else; it
-- drops from the table the downloads that it answers as ended, so that an end is answered once, and no other.
pub batch_status-Once :
    (k : Text) (ids : List Text) (m : JobMap)
    → (status_in (batch_status ids m).0 k ≡ answered (asked k ids) k (entry_in m k) none)
      × (entry_in (batch_status ids m).1 k ≡ left (asked k ids) (entry_in m k))
unfolding batch_status
batch_status-Once k ids m = (status_in-statuses_from k ids m [], entry_in-statuses_from k ids m [])
