-- ===== src/Worker/Heartbeat/Offline.antt =====
-- When a worker shuts itself down.
use opendebrid.Prelude.{
  ℕ, suc, ◌≡◌, refl, sym, ap, ◌∙◌, fun_ext, Bool, true, false, Option, none, some, List, [], ◌∷◌,
  ◌++◌, map, any, All, arith,
}
use opendebrid.Worker.Heartbeat.{
  Round, refused_at, died_at, context_done, Heart, Beat, beating, shut_down, returned, timed_out,
  refused_since, reconnected, stream_lost, round, go_on, rounds_from, run_heartbeat,
}

abbrev pub is_shut_down : Beat → Bool
is_shut_down shut_down = true
is_shut_down _ = false

module _ (offline_timeout : ℕ) where
  shut_down-refused :
      (since n : ℕ) (ts : List ℕ)
      → is_shut_down (
          rounds_from offline_timeout
            (map refused_at ts)
            (record { disconnected_at = some since; reconciled = n }))
        ≡ any (timed_out offline_timeout since) ts
  shut_down-refused since n [] = refl
  shut_down-refused since n (t ∷ ts) = ground (arith, shut_down-refused since n ts)

  go_on-go_on : (b : Beat) (f g : Heart → Beat) → go_on (go_on b f) g ≡ go_on b (λ h. go_on (f h) g)
  go_on-go_on (beating h) f g = refl
  go_on-go_on shut_down f g = refl
  go_on-go_on returned f g = refl

  rounds_from-append :
      (rs qs : List Round) (h : Heart)
      → rounds_from offline_timeout (rs ++ qs) h
        ≡ go_on (rounds_from offline_timeout rs h) (rounds_from offline_timeout qs)
  rounds_from-append [] qs h = refl
  rounds_from-append (r ∷ rs) qs h =
      ap (go_on (round offline_timeout r h)) (fun_ext (rounds_from-append rs qs))
      ∙ sym (
          go_on-go_on (round offline_timeout r h) (rounds_from offline_timeout rs)
            (rounds_from offline_timeout qs))

  -- A worker that goes on with its timer unset, and that cannot connect from then on, shuts itself down
  -- exactly where an attempt comes the offline timeout or more after the first that failed.
  pub run_heartbeat-refused :
      (rs : List Round) (h : Heart) (first : ℕ) (ts : List ℕ)
      → run_heartbeat offline_timeout rs ≡ beating h
      → h.disconnected_at ≡ none
      → is_shut_down (run_heartbeat offline_timeout (rs ++ refused_at first ∷ map refused_at ts))
        ≡ any (timed_out offline_timeout first) ts
  unfolding run_heartbeat
  run_heartbeat-refused rs h first ts e unset =
      ap is_shut_down (
        rounds_from-append rs (refused_at first ∷ map refused_at ts)
          (record { disconnected_at = none; reconciled = 0 }))
      ∙ (ap
            (λ b.
              is_shut_down
                (go_on b (rounds_from offline_timeout (refused_at first ∷ map refused_at ts))))
            e
          ∙ (ap
                (λ d. is_shut_down (
                  go_on (refused_since offline_timeout d h first)
                    (rounds_from offline_timeout (map refused_at ts))))
                unset
              ∙ shut_down-refused first h.reconciled ts))

  -- A stream that opens and dies, with less than the timeout between the two looks at the clock.
  abbrev pub Dies : Round → Type 0
  Dies (died_at first second) = timed_out offline_timeout first second ≡ false
  Dies _ = ⊥

  stream_lost-Dies :
      (o : Option ℕ) (h : Heart) (first second : ℕ)
      → h.disconnected_at ≡ o
      → timed_out offline_timeout first second ≡ false
      → (h' : Heart) × (stream_lost offline_timeout
            (reconnected o h).disconnected_at
            (reconnected o h)
            first
            second
          ≡ beating h')
  stream_lost-Dies none h first second e q = (
    record h { disconnected_at = some first },
    ap (λ d. stream_lost offline_timeout d h first second) e ∙ rw q refl,
  )
  stream_lost-Dies (some since) h first second e q =
      (record { disconnected_at = some first; reconciled = suc h.reconciled }, rw q refl)

  rounds_from-Dies :
      (rs : List Round) (h : Heart)
      → All Dies rs
      → (h' : Heart) × (rounds_from offline_timeout rs h ≡ beating h')
  rounds_from-Dies [] h d = (h, refl)
  rounds_from-Dies (died_at first second ∷ rs) h d =
      let (h', e) = stream_lost-Dies h.disconnected_at h first second refl d.0 in
      let (h'', f) = rounds_from-Dies rs h' d.1 in
      (h'', ap (λ b. go_on b (rounds_from offline_timeout rs)) e ∙ f)
  rounds_from-Dies (refused_at now ∷ rs) h d = absurd d.0
  rounds_from-Dies (context_done ∷ rs) h d = absurd d.0

  -- Streams that open and die do not count: however long they go on, with less than the timeout between the
  -- two looks at the clock behind each, the worker does not shut itself down.
  pub run_heartbeat-died :
      (rs : List Round) → All Dies rs → (h : Heart) × (run_heartbeat offline_timeout rs ≡ beating h)
  unfolding run_heartbeat
  run_heartbeat-died rs = rounds_from-Dies rs (record { disconnected_at = none; reconciled = 0 })
