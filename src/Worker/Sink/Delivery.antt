-- ===== src/Worker/Sink/Delivery.antt =====
-- What becomes of terminal reports over many pushes.
use mathlib.Core.List.{append_assoc, append-nil}
use opendebrid.Prelude.{
  ◌+◌, ◌-◌, ◌≤◌, ◌≡◌, refl, sym, ap, ◌∙◌, Bool, true, false, not, List, [], ◌∷◌, ◌++◌, select,
  length, length-append, length-drop, arith, Bool-cases, inl, inr,
}
use opendebrid.Grpc.Statuses.{StatusReport, is_terminal_report, is_nil}
use opendebrid.Worker.Sink.{
  Sink, Push, max_pending_terminal, keep_newest, is_progress_report, to_retry, push_statuses,
  pushes, handed_over,
}

module _ {A : Type 0} (t : A → Bool) where
  select-append : (xs ys : List A) → select t (xs ++ ys) ≡ select t xs ++ select t ys
  select-append [] ys = refl
  select-append (x ∷ xs) ys = elim (Bool-cases (t x)) [
    | inl e ↦ rw e (ap (λ zs. x ∷ zs) (select-append xs ys))
    | inr e ↦ rw e (select-append xs ys)
  ]

  select_idem : (xs : List A) → select t (select t xs) ≡ select t xs
  select_idem [] = refl
  select_idem (x ∷ xs) = elim (Bool-cases (t x)) [
    | inl e ↦ rw (e, e) (ap (λ zs. x ∷ zs) (select_idem xs))
    | inr e ↦ rw e (select_idem xs)
  ]

  select-not : (xs : List A) → select t (select (λ x. not (t x)) xs) ≡ []
  select-not [] = refl
  select-not (x ∷ xs) = elim (Bool-cases (t x)) [
    | inl e ↦ rw e (select-not xs)
    | inr e ↦ rw (e, e) (select-not xs)
  ]

-- The buffer holds terminal reports only.
abbrev pub AreTerminal : List StatusReport → Type 0
AreTerminal rs = select is_terminal_report rs ≡ rs

AreTerminal-to_retry :
    (s : Sink) (rs : List StatusReport) → AreTerminal s.pending → AreTerminal (to_retry s rs)
AreTerminal-to_retry s rs h =
    select-append is_terminal_report s.pending (select is_terminal_report rs)
    ∙ rw h (rw (select_idem is_terminal_report rs) refl)

-- Of what a push sends, the terminal reports are those of the buffer and its own.
terminal-sent :
    (s : Sink) (rs : List StatusReport)
    → AreTerminal s.pending
    → select is_terminal_report (to_retry s rs ++ select is_progress_report rs) ≡ to_retry s rs
terminal-sent s rs h =
    select-append is_terminal_report (to_retry s rs) (select is_progress_report rs)
    ∙ rw (AreTerminal-to_retry s rs h)
        (rw (select-not is_terminal_report rs) (append-nil (to_retry s rs)))

is_nil-append : (xs ys : List StatusReport) → is_nil (xs ++ ys) ≡ true → xs ≡ []
is_nil-append [] ys h = refl
is_nil-append (x ∷ xs) ys h = cc

append-nil-left : (xs ys : List StatusReport) → (xs ++ ys) ≡ [] → xs ≡ []
append-nil-left [] ys h = refl
append-nil-left (x ∷ xs) ys h = cc

append-nil-right : (xs ys : List StatusReport) → (xs ++ ys) ≡ [] → ys ≡ []
append-nil-right [] ys h = h
append-nil-right (x ∷ xs) ys h = cc

-- What is answered and what waits, before and after one push.
abbrev pub accounted : Sink → List StatusReport
accounted s = select is_terminal_report s.acked ++ s.pending

keep_newest-all : (rs : List StatusReport) → length rs ≤ max_pending_terminal → keep_newest rs ≡ rs
keep_newest-all rs h = let e : length rs - max_pending_terminal ≡ 0 = omega arith in rw e refl

length-keep_newest : (rs : List StatusReport) → length (keep_newest rs) ≤ max_pending_terminal
length-keep_newest rs = omega (arith, length-drop (length rs - max_pending_terminal) rs)

module _ (has_uploader : Bool) where
  push-bounded :
      (answered : Bool) (rs : List StatusReport) (s : Sink)
      → length s.pending ≤ max_pending_terminal
      → length (push_statuses has_uploader answered rs s).1.pending ≤ max_pending_terminal
  unfolding push_statuses
  push-bounded answered rs s h = ground (arith, length-keep_newest (to_retry s rs))

  nothing_sent :
      (s : Sink) (rs : List StatusReport)
      → is_nil (to_retry s rs ++ select is_progress_report rs) ≡ true
      → accounted s ≡ accounted s ++ select is_terminal_report rs
  nothing_sent s rs e =
      rw
        (append-nil-right s.pending (select is_terminal_report rs)
          (is_nil-append (to_retry s rs) (select is_progress_report rs) e))
        (sym (append-nil (accounted s)))

  length-push :
      (answered : Bool) (rs : List StatusReport) (s : Sink)
      → length (push_statuses has_uploader answered rs s).1.pending
        ≤ length s.pending + length (select is_terminal_report rs)
  unfolding push_statuses
  length-push answered rs s = ground (
    arith,
    length-append s.pending (select is_terminal_report rs),
    length-drop (length (to_retry s rs) - max_pending_terminal) (to_retry s rs),
  )

  push-accounted :
      (answered : Bool) (rs : List StatusReport) (s : Sink)
      → AreTerminal s.pending
      → length (to_retry s rs) ≤ max_pending_terminal
      → (let s' = (push_statuses has_uploader answered rs s).1 in
          (accounted s' ≡ accounted s ++ select is_terminal_report rs) × AreTerminal s'.pending)
  unfolding push_statuses
  push-accounted true rs s h small =
      elim (Bool-cases (is_nil (to_retry s rs ++ select is_progress_report rs))) [
        | inl e ↦ rw (e, push_statuses) (nothing_sent s rs e, h)
        | inr e ↦
            rw (e, push_statuses)
              (
                append-nil (
                      select is_terminal_report
                        (s.acked ++ (to_retry s rs ++ select is_progress_report rs)))
                    ∙ select-append is_terminal_report s.acked
                        (to_retry s rs ++ select is_progress_report rs)
                    ∙ ap (λ xs. select is_terminal_report s.acked ++ xs) (terminal-sent s rs h)
                    ∙ sym (
                        append_assoc (select is_terminal_report s.acked) s.pending
                          (select is_terminal_report rs)),
                refl,
              )
      ]
  push-accounted false rs s h small =
      elim (Bool-cases (is_nil (to_retry s rs ++ select is_progress_report rs))) [
        | inl e ↦ rw (e, push_statuses) (nothing_sent s rs e, h)
        | inr e ↦
            rw (e, push_statuses)
              (rw (keep_newest-all (to_retry s rs) small) (
                sym (
                    append_assoc (select is_terminal_report s.acked) s.pending
                      (select is_terminal_report rs)),
                AreTerminal-to_retry s rs h,
              ))
      ]

  -- Over any pushes, answered or not: as long as the buffer has room for all that it holds and is handed,
  -- every terminal report is, once and in its order, among those that the controller has answered or
  -- among those that wait.
  pub pushes-accounted :
      (ps : List Push) (s : Sink)
      → AreTerminal s.pending
      → length s.pending + length (handed_over ps) ≤ max_pending_terminal
      → accounted (pushes has_uploader ps s) ≡ accounted s ++ handed_over ps
  unfolding pushes
  pushes-accounted [] s h room = sym (append-nil (accounted s))
  pushes-accounted (p ∷ ps) s h room =
      let s' = (push_statuses has_uploader p.0 p.1 s).1 in
      let sum = length-append s.pending (select is_terminal_report p.1) in
      let sum' = length-append (select is_terminal_report p.1) (handed_over ps) in
      let (e, t) = push-accounted p.0 p.1 s h (omega (arith, sum, sum')) in
      let kept = length-push p.0 p.1 s in
      pushes-accounted ps s' t (omega (arith, sum, sum', kept))
      ∙ ap (λ xs. xs ++ handed_over ps) e
      ∙ append_assoc (accounted s) (select is_terminal_report p.1) (handed_over ps)

  push-clears :
      (rs : List StatusReport) (s : Sink) → (push_statuses has_uploader true rs s).1.pending ≡ []
  unfolding push_statuses
  push-clears rs s = elim (Bool-cases (is_nil (to_retry s rs ++ select is_progress_report rs))) [
    | inl e ↦
        rw (e, push_statuses)
          (append-nil-left s.pending (select is_terminal_report rs)
            (is_nil-append (to_retry s rs) (select is_progress_report rs) e))
    | inr e ↦ rw (e, push_statuses) refl
  ]

  pushes-last :
      (ps : List Push) (rs : List StatusReport) (s : Sink)
      → (pushes has_uploader (ps ++ (true, rs) ∷ []) s).pending ≡ []
  unfolding pushes
  pushes-last [] rs s = push-clears rs s
  pushes-last (p ∷ ps) rs s = pushes-last ps rs (push_statuses has_uploader p.0 p.1 s).1

  -- However many pushes fail before, the first one that is answered delivers every terminal report that
  -- was handed over until then, once and in order, provided that the buffer had room for them.
  pub pushes-delivers :
      (ps : List Push) (rs : List StatusReport) (s : Sink)
      → AreTerminal s.pending
      → length s.pending + length (handed_over (ps ++ (true, rs) ∷ [])) ≤ max_pending_terminal
      → select is_terminal_report (pushes has_uploader (ps ++ (true, rs) ∷ []) s).acked
        ≡ accounted s ++ handed_over (ps ++ (true, rs) ∷ [])
  pushes-delivers ps rs s h room =
      let all = pushes-accounted (ps ++ (true, rs) ∷ []) s h room in
      let cleared = pushes-last ps rs s in
      sym (append-nil _)
      ∙ ap
          (λ xs.
            select is_terminal_report (pushes has_uploader (ps ++ (true, rs) ∷ []) s).acked ++ xs)
          (sym cleared)
      ∙ all

  -- The buffer never holds more than 1000 reports.
  pub pushes-bounded :
      (ps : List Push) (s : Sink)
      → length s.pending ≤ max_pending_terminal
      → length (pushes has_uploader ps s).pending ≤ max_pending_terminal
  unfolding pushes
  pushes-bounded [] s h = h
  pushes-bounded (p ∷ ps) s h =
      pushes-bounded ps (push_statuses has_uploader p.0 p.1 s).1 (push-bounded p.0 p.1 s h)
