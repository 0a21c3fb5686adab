-- ===== src/Mailbox/Drain.antt =====
-- The worker of a mailbox (server/internal/actor/mailbox.go), left to itself, comes to the end of
-- what was admitted; `Idle` tells when it has.
use mathlib.Core.List.{append-nil}
use supernova_classic_farm.Base.{
  ℕ, zero, suc, ◌+◌, ◌-◌, ◌≡◌, refl, ◌↔◌, sym, ap, ◌∙◌, inl, inr, Bool, true, false, ◌||◌, Option,
  none, some, List, [], ◌∷◌, ◌++◌, arith, length, length-append, ◌==◌, Bool-cases,
}
use supernova_classic_farm.Mailbox.{
  Job, Mailbox, take_job, receive, finish_running, finish_job, idle,
}
use supernova_classic_farm.Mailbox.Order.{
  Reached, IsOrdered, queue_of, busy, receive-IsOrdered, finish_job-IsOrdered, Reached-IsOrdered,
}

-- The worker comes to the end of its job and receives the next, `n` times.
abbrev pub work : ℕ → Mailbox → Mailbox
work zero mailbox = mailbox
work (suc n) mailbox = work n (receive (finish_job mailbox))

take_job-jobs :
    (mailbox : Mailbox) (jobs : List Job)
    → mailbox.jobs ≡ jobs
    → length (take_job mailbox jobs).jobs ≡ length jobs - 1
unfolding take_job
take_job-jobs mailbox [] h = ap length h
take_job-jobs mailbox (Job.task id ∷ jobs) h = omega arith
take_job-jobs mailbox (Job.stop ∷ jobs) h = omega arith

take_job-kept :
    (mailbox : Mailbox) (jobs : List Job)
    → ((take_job mailbox jobs).admitted ≡ mailbox.admitted)
      × ((take_job mailbox jobs).stop_sent ≡ mailbox.stop_sent)
unfolding take_job
take_job-kept mailbox [] = (refl, refl)
take_job-kept mailbox (Job.task id ∷ jobs) = (refl, refl)
take_job-kept mailbox (Job.stop ∷ jobs) = (refl, refl)

receive-open :
    (mailbox : Mailbox)
    → mailbox.closed ≡ false
    → mailbox.running ≡ none
    → receive mailbox ≡ take_job mailbox mailbox.jobs
unfolding receive
receive-open mailbox alive hand = simp (alive, hand) refl

record IsRested (before after : Mailbox) : Type 0 where
  hand : after.running ≡ none
  jobs : after.jobs ≡ before.jobs
  admitted : after.admitted ≡ before.admitted
  stop_sent : after.stop_sent ≡ before.stop_sent
  closed : after.closed ≡ before.closed

finish_running-IsRested :
    (mailbox : Mailbox) (running : Option ℕ)
    → mailbox.running ≡ running
    → IsRested mailbox (finish_running mailbox running)
finish_running-IsRested mailbox none h = record {
  hand = h;
  jobs = refl;
  admitted = refl;
  stop_sent = refl;
  closed = refl;
}
finish_running-IsRested mailbox (some id) h = record {
  hand = refl;
  jobs = refl;
  admitted = refl;
  stop_sent = refl;
  closed = refl;
}

empty_queue :
    (waiting : List ℕ) (ending : Bool)
    → length (queue_of waiting ending) ≡ 0
    → (waiting ≡ []) × (ending ≡ false)
empty_queue [] false h = (refl, refl)
empty_queue [] true h = absurd (omega (arith, h))
empty_queue (id ∷ waiting) ending h = absurd (omega (arith, h))

-- While the channel holds something, the worker has not ended.
alive_while :
    (mailbox : Mailbox) (n : ℕ)
    → IsOrdered mailbox
    → length mailbox.jobs ≡ suc n
    → mailbox.closed ≡ false
alive_while mailbox n o h = elim (Bool-cases mailbox.closed) [
  | inr alive ↦ alive
  | inl over ↦
      (let none_left : length mailbox.jobs ≡ 0 = ap length (
          o.queued
          ∙ ap (λ ids. queue_of ids o.ending) (o.over over).0
          ∙ ap (queue_of []) (o.over over).1) in
        absurd (omega (arith, none_left, h)))
]

record IsShorter (before after : Mailbox) (n : ℕ) : Type 0 where
  jobs : length after.jobs ≡ n
  admitted : after.admitted ≡ before.admitted
  stop_sent : after.stop_sent ≡ before.stop_sent

one_round :
    (mailbox : Mailbox) (n : ℕ)
    → IsOrdered mailbox
    → length mailbox.jobs ≡ suc n
    → IsShorter mailbox (receive (finish_job mailbox)) n
unfolding finish_job
one_round mailbox n o h =
    let rested = finish_running-IsRested mailbox mailbox.running refl in
    let taken =
      receive-open (finish_job mailbox) (rested.closed ∙ alive_while mailbox n o h) rested.hand in
    let (same_admitted, same_stop) = take_job-kept (finish_job mailbox) (finish_job mailbox).jobs in
    let left : length (receive (finish_job mailbox)).jobs ≡ n =
      ap (λ m. length m.jobs) taken
      ∙ take_job-jobs (finish_job mailbox) (finish_job mailbox).jobs refl
      ∙ ap (λ jobs. length jobs - 1) rested.jobs
      ∙ ap (λ k. k - 1) h
      ∙ omega arith in
    record {
      jobs = left;
      admitted = ap (λ m. m.admitted) taken ∙ same_admitted ∙ rested.admitted;
      stop_sent = ap (λ m. m.stop_sent) taken ∙ same_stop ∙ rested.stop_sent;
    }

work_drains :
    (n : ℕ) (mailbox : Mailbox)
    → IsOrdered mailbox
    → length mailbox.jobs ≡ n
    → ((work n mailbox).started ≡ mailbox.admitted) × ((work n mailbox).closed ≡ mailbox.stop_sent)
work_drains zero mailbox o h =
    let (none_waits, none_ends) = empty_queue o.waiting o.ending (sym (ap length o.queued) ∙ h) in
    (
      sym (o.ordered ∙ ap (λ ids. mailbox.started ++ ids) none_waits ∙ append-nil mailbox.started),
      sym (o.ends ∙ ap (λ b. mailbox.closed || b) none_ends ∙ or_false mailbox.closed),
    )
  where
    or_false : (b : Bool) → (b || false) ≡ b
    or_false true = refl
    or_false false = refl
work_drains (suc n) mailbox o h =
    let shorter = one_round mailbox n o h in
    let next = receive-IsOrdered (finish_job mailbox) (finish_job-IsOrdered mailbox o) in
    let (all, over) = work_drains n (receive (finish_job mailbox)) next shorter.jobs in
    (all ∙ shorter.admitted, over ∙ shorter.stop_sent)

-- From every reachable mailbox, a worker that goes on by itself, coming to the end of a job and
-- receiving the next as many times as the channel holds entries, has then started every admitted
-- job, and has ended exactly if the end was sent.
pub work-Reached :
    (queue_size : ℕ) (mailbox : Mailbox)
    → Reached queue_size mailbox
    → ((work (length mailbox.jobs) mailbox).started ≡ mailbox.admitted)
      × ((work (length mailbox.jobs) mailbox).closed ≡ mailbox.stop_sent)
work-Reached queue_size mailbox reached =
    work_drains (length mailbox.jobs) mailbox (Reached-IsOrdered queue_size mailbox reached) refl

no_length : (ids : List ℕ) → length ids ≡ 0 → ids ≡ []
no_length [] h = refl
no_length (id ∷ ids) h = absurd (omega (arith, h))

no_busy : (running : Option ℕ) → busy running ≡ 0 → running ≡ none
no_busy none h = refl
no_busy (some id) h = absurd (omega (arith, h))

same_number : (a b : ℕ) → (a == b) ≡ true → a ≡ b
same_number a b h = ground arith

same_test : (a b : ℕ) → a ≡ b → (a == b) ≡ true
same_test a b h = ground arith

-- What was counted, against what is left to do.
left_over :
    (mailbox : Mailbox) (o : IsOrdered mailbox)
    → mailbox.inflight_added ≡ length mailbox.admitted
    → mailbox.inflight_added ≡ mailbox.inflight_removed + busy mailbox.running + length o.waiting
left_over mailbox o counted =
    counted
    ∙ ap length o.ordered
    ∙ length-append mailbox.started o.waiting
    ∙ ap (λ n. n + length o.waiting) o.counts

-- In a reachable mailbox with every admitted job counted, `Idle` reports true exactly if every
-- admitted job was started and none runs.
pub idle-Reached :
    (queue_size : ℕ) (mailbox : Mailbox)
    → Reached queue_size mailbox
    → mailbox.inflight_added ≡ length mailbox.admitted
    → (idle mailbox ≡ true) ↔ ((mailbox.started ≡ mailbox.admitted) × (mailbox.running ≡ none))
unfolding idle
idle-Reached queue_size mailbox reached counted = (to_rest, from_rest)
  where
    o : IsOrdered mailbox
    o = Reached-IsOrdered queue_size mailbox reached

    to_rest : idle mailbox ≡ true → (mailbox.started ≡ mailbox.admitted) × (mailbox.running ≡ none)
    to_rest h =
        let same = same_number mailbox.inflight_added mailbox.inflight_removed h in
        let total = left_over mailbox o counted in
        let none_waits = no_length o.waiting (omega (arith, same, total)) in
        (
          sym (
              o.ordered
              ∙ ap (λ ids. mailbox.started ++ ids) none_waits
              ∙ append-nil mailbox.started),
          no_busy mailbox.running (omega (arith, same, total)),
        )

    from_rest :
        (mailbox.started ≡ mailbox.admitted) × (mailbox.running ≡ none) → idle mailbox ≡ true
    from_rest (all, hand) = same_test mailbox.inflight_added mailbox.inflight_removed (
        counted
        ∙ sym (ap length all)
        ∙ o.counts
        ∙ ap (λ running. mailbox.inflight_removed + busy running) hand
        ∙ omega arith)
