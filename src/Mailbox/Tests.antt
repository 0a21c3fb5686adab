-- ===== src/Mailbox/Tests.antt =====
-- Examples for mailboxes: two jobs, of which the first runs while the mailbox closes.
use supernova_classic_farm.Base.{
  ℕ, ◌≡◌, refl, ◌↔◌, Bool, true, false, Option, none, some, List, [], ◌∷◌, ok, err,
}
use supernova_classic_farm.Mailbox.{
  Job, Mailbox, MailboxError, new_mailbox, can_send, submit, count_job, take_job, receive,
  begin_close, send_stop, idle,
}
use supernova_classic_farm.Mailbox.Order.{Step, Reached, IsInOrder, Reached-IsInOrder}
use supernova_classic_farm.Mailbox.Drain.{work, work-Reached, idle-Reached}

abbrev built : List Job → Option ℕ → Bool → Bool → Bool → ℕ → List ℕ → List ℕ → Mailbox
built jobs running closed is_closed stop_sent added admitted started = record {
  queue_size = 2;
  jobs = jobs;
  running = running;
  closed = closed;
  is_closed = is_closed;
  stop_sent = stop_sent;
  inflight_added = added;
  inflight_removed = 0;
  admitted = admitted;
  started = started;
}

abbrev one : Mailbox
one = built (Job.task 1 ∷ []) none false false false 0 (1 ∷ []) []

abbrev two : Mailbox
two = built (Job.task 1 ∷ Job.task 2 ∷ []) none false false false 2 (1 ∷ 2 ∷ []) []

one_sent : submit (new_mailbox 2) 1 ≡ ok one
unfolding submit new_mailbox can_send
one_sent = refl

two_sent : submit (count_job one) 2 ≡ ok (record two { inflight_added = 1 })
unfolding submit count_job can_send
two_sent = refl

full : submit two 3 ≡ err MailboxError.mailbox_full
unfolding submit can_send
full = refl

filled : Reached 2 two
unfolding count_job
filled =
    Reached.next (record two { inflight_added = 1 }) _
      (Reached.next (count_job one) _
        (Reached.next one _
          (Reached.next (new_mailbox 2) _ Reached.start
            (Step.submitted (new_mailbox 2) one 1 one_sent))
          (Step.counted one))
        (Step.submitted (count_job one) (record two { inflight_added = 1 }) 2 two_sent))
      (Step.counted (record two { inflight_added = 1 }))

-- The first job runs, and `Close` waits behind the second.
abbrev ending : Mailbox
ending = built (Job.task 2 ∷ Job.stop ∷ []) (some 1) false true true 2 (1 ∷ 2 ∷ []) (1 ∷ [])

closing_down : Reached 2 ending
unfolding receive take_job begin_close send_stop can_send
closing_down =
    Reached.next (begin_close (receive two)) ending
      (Reached.next (receive two) _ (Reached.next two _ filled (Step.received two))
        (Step.closing (receive two)))
      (Step.stopping (begin_close (receive two)))

Reached-IsInOrder_example : IsInOrder ending
Reached-IsInOrder_example = Reached-IsInOrder 2 ending closing_down

work-Reached_example : ((work 2 ending).started ≡ 1 ∷ 2 ∷ []) × ((work 2 ending).closed ≡ true)
work-Reached_example = work-Reached 2 ending closing_down

idle-Reached_example : (idle two ≡ true) ↔ ((two.started ≡ two.admitted) × (two.running ≡ none))
idle-Reached_example = idle-Reached 2 two filled refl

busy_mailbox : idle two ≡ false
unfolding idle
busy_mailbox = refl

-- A job is in the queue, but not counted yet.
not_counted : idle one ≡ true
unfolding idle
not_counted = refl
