-- ===== src/Mailbox/Order.antt =====
-- Jobs of a mailbox (server/internal/actor/mailbox.go) start in the order in which they were
-- admitted, whatever the interleaving.
use mathlib.Core.Path.{subst}
use mathlib.Core.List.{append_assoc, append-nil}
use supernova_classic_farm.Base.{
  ℕ, ◌+◌, ◌≡◌, refl, sym, ap, ◌∙◌, ◌⊎◌, inl, inr, Bool, true, false, not, ◌&&◌, ◌||◌, Option, none,
  some, List, [], ◌∷◌, ◌++◌, ok, arith, length, length-append, opened, ok_unique, Bool-cases,
}
use supernova_classic_farm.Mailbox.{
  Job, Mailbox, new_mailbox, can_send, submit, count_job, take_job, receive, finish_running,
  finish_job, begin_close, send_stop, waits,
}

-- One step of a goroutine.
pub data Step : Mailbox → Mailbox → Type 0 where
  submitted : (before after : Mailbox) (id : ℕ) → submit before id ≡ ok after → Step before after
  counted : (before : Mailbox) → Step before (count_job before)
  received : (before : Mailbox) → Step before (receive before)
  finished : (before : Mailbox) → Step before (finish_job before)
  closing : (before : Mailbox) → Step before (begin_close before)
  stopping : (before : Mailbox) → Step before (send_stop before)

pub data Reached (queue_size : ℕ) : Mailbox → Type 0 where
  start : Reached queue_size (new_mailbox queue_size)
  next :
      (before after : Mailbox)
      → Reached queue_size before
      → Step before after
      → Reached queue_size after

-- The channel's content: jobs that wait, and the end of the worker behind them if it was sent.
abbrev pub queue_of : List ℕ → Bool → List Job
queue_of [] true = Job.stop ∷ []
queue_of [] false = []
queue_of (id ∷ waiting) ending = Job.task id ∷ queue_of waiting ending

abbrev pub busy : Option ℕ → ℕ
busy none = 0
busy (some id) = 1

pub record IsOrdered (mailbox : Mailbox) : Type 0 where
  pub waiting : List ℕ
  pub ending : Bool
  pub queued : mailbox.jobs ≡ queue_of waiting ending
  pub ordered : mailbox.admitted ≡ mailbox.started ++ waiting
  pub ends : mailbox.stop_sent ≡ (mailbox.closed || ending)
  pub sent : mailbox.stop_sent ≡ true → mailbox.is_closed ≡ true
  pub over : mailbox.closed ≡ true → (waiting ≡ []) × (ending ≡ false)
  pub counts : length mailbox.started ≡ mailbox.inflight_removed + busy mailbox.running

queue_of-task :
    (waiting : List ℕ) (id : ℕ)
    → queue_of waiting false ++ Job.task id ∷ [] ≡ queue_of (waiting ++ id ∷ []) false
queue_of-task [] id = refl
queue_of-task (w ∷ waiting) id = ap (λ jobs. Job.task w ∷ jobs) (queue_of-task waiting id)

queue_of-stop : (waiting : List ℕ) → queue_of waiting false ++ Job.stop ∷ [] ≡ queue_of waiting true
queue_of-stop [] = refl
queue_of-stop (w ∷ waiting) = ap (λ jobs. Job.task w ∷ jobs) (queue_of-stop waiting)

false_is : (b : Bool) → (b ≡ true → ⊥) → b ≡ false
false_is true h = absurd (h refl)
false_is false h = refl

clash : (b : Bool) → b ≡ true → b ≡ false → ⊥
clash b p q = cc

neither : (a b : Bool) → (a || b) ≡ false → (a ≡ false) × (b ≡ false)
neither true b h = cc
neither false b h = (refl, h)

-- Before the end of the worker is sent, the channel is open and has only jobs.
unsent :
    (mailbox : Mailbox) (o : IsOrdered mailbox)
    → mailbox.stop_sent ≡ false
    → (mailbox.closed ≡ false) × (o.ending ≡ false)
unsent mailbox o h = neither mailbox.closed o.ending (sym o.ends ∙ h)

submit-IsOrdered :
    (before : Mailbox) (id : ℕ) {after : Mailbox}
    → submit before id ≡ ok after
    → IsOrdered before
    → IsOrdered after
unfolding submit
submit-IsOrdered before id h o =
    let (not_closed, h1) = opened before.is_closed _ _ h in
    let (_, h2) = opened (not (can_send before)) _ _ h1 in
    let stays = false_is before.stop_sent (λ s. clash before.is_closed (o.sent s) not_closed) in
    let (alive, last) = unsent before o stays in
    rw (← ok_unique (ok _) refl h2) (record {
      waiting = o.waiting ++ id ∷ [];
      ending = false;
      queued =
          ap (λ jobs. jobs ++ Job.task id ∷ []) (o.queued ∙ ap (queue_of o.waiting) last)
          ∙ queue_of-task o.waiting id;
      ordered =
          ap (λ ids. ids ++ id ∷ []) o.ordered ∙ append_assoc before.started o.waiting (id ∷ []);
      ends = o.ends ∙ ap (λ b. before.closed || b) last;
      sent = o.sent;
      over = λ c. absurd (clash before.closed c alive);
      counts = o.counts;
    })

length-snoc : (ids : List ℕ) (id : ℕ) → length (ids ++ id ∷ []) ≡ length ids + 1
length-snoc ids id = length-append ids (id ∷ [])

-- A worker that waits has no job in hand.
at_rest :
    (n removed : ℕ) (running : Option ℕ) → n ≡ removed → running ≡ none → n ≡ removed + busy running
at_rest n removed none h r = omega (arith, h)
at_rest n removed (some id) h r = cc

take_job-IsOrdered :
    (before : Mailbox) (waiting : List ℕ) (ending : Bool)
    → before.jobs ≡ queue_of waiting ending
    → before.admitted ≡ before.started ++ waiting
    → before.stop_sent ≡ ending
    → (before.stop_sent ≡ true → before.is_closed ≡ true)
    → before.closed ≡ false
    → length before.started ≡ before.inflight_removed
    → before.running ≡ none
    → IsOrdered (take_job before (queue_of waiting ending))
unfolding take_job
take_job-IsOrdered before [] false q a s i c n r = record {
  waiting = [];
  ending = false;
  queued = q;
  ordered = a;
  ends = s ∙ sym (ap (λ b. b || false) c);
  sent = i;
  over = λ b. absurd (clash before.closed b c);
  counts = at_rest _ _ _ n r;
}
take_job-IsOrdered before [] true q a s i c n r = record {
  waiting = [];
  ending = false;
  queued = refl;
  ordered = a;
  ends = s;
  sent = i;
  over = λ b. (refl, refl);
  counts = at_rest _ _ _ n r;
}
take_job-IsOrdered before (id ∷ waiting) ending q a s i c n r = record {
  waiting = waiting;
  ending = ending;
  queued = refl;
  ordered = a ∙ sym (append_assoc before.started (id ∷ []) waiting);
  ends = s ∙ sym (ap (λ b. b || ending) c);
  sent = i;
  over = λ b. absurd (clash before.closed b c);
  counts = length-snoc before.started id ∙ ap (λ k. k + 1) n;
}

no_hand : (running : Option ℕ) → waits running ≡ true → running ≡ none
no_hand none h = refl
no_hand (some id) h = cc

rest_count :
    (n removed : ℕ) (running : Option ℕ) → n ≡ removed + busy running → running ≡ none → n ≡ removed
rest_count n removed none h r = omega (arith, h)
rest_count n removed (some id) h r = cc

pub receive-IsOrdered : (before : Mailbox) → IsOrdered before → IsOrdered (receive before)
unfolding receive
receive-IsOrdered before o = elim (Bool-cases (before.closed || not (waits before.running))) [
  | inl rests ↦ rw rests o
  | inr takes ↦
      (let (alive, free) = neither before.closed (not (waits before.running)) takes in
        let hand = no_hand before.running (not_false (waits before.running) free) in
        rw takes (
          subst (λ jobs. IsOrdered (take_job before jobs)) (sym o.queued)
            (take_job-IsOrdered before o.waiting o.ending o.queued o.ordered
              (o.ends ∙ ap (λ b. b || o.ending) alive) o.sent alive (rest_count _ _ _ o.counts hand)
              hand)))
]
  where
    not_false : (b : Bool) → not b ≡ false → b ≡ true
    not_false true h = refl
    not_false false h = cc

finish_running-IsOrdered :
    (before : Mailbox) (running : Option ℕ)
    → length before.started ≡ before.inflight_removed + busy running
    → IsOrdered before
    → IsOrdered (finish_running before running)
finish_running-IsOrdered before none n o = o
finish_running-IsOrdered before (some id) n o = record {
  waiting = o.waiting;
  ending = o.ending;
  queued = o.queued;
  ordered = o.ordered;
  ends = o.ends;
  sent = o.sent;
  over = o.over;
  counts = omega (arith, n);
}

pub finish_job-IsOrdered : (before : Mailbox) → IsOrdered before → IsOrdered (finish_job before)
unfolding finish_job
finish_job-IsOrdered before o = finish_running-IsOrdered before before.running o.counts o

count_job-IsOrdered : (before : Mailbox) → IsOrdered before → IsOrdered (count_job before)
unfolding count_job
count_job-IsOrdered before o = record {
  waiting = o.waiting;
  ending = o.ending;
  queued = o.queued;
  ordered = o.ordered;
  ends = o.ends;
  sent = o.sent;
  over = o.over;
  counts = o.counts;
}

begin_close-IsOrdered : (before : Mailbox) → IsOrdered before → IsOrdered (begin_close before)
unfolding begin_close
begin_close-IsOrdered before o = record {
  waiting = o.waiting;
  ending = o.ending;
  queued = o.queued;
  ordered = o.ordered;
  ends = o.ends;
  sent = λ s. refl;
  over = o.over;
  counts = o.counts;
}

both : (a b : Bool) → (a && b) ≡ true → (a ≡ true) × (b ≡ true)
both true b h = (refl, h)
both false b h = cc

or_true : (a : Bool) → (a || true) ≡ true
or_true true = refl
or_true false = refl

is_unsent : (b : Bool) → not b ≡ true → b ≡ false
is_unsent true h = cc
is_unsent false h = refl

send_stop-IsOrdered : (before : Mailbox) → IsOrdered before → IsOrdered (send_stop before)
unfolding send_stop
send_stop-IsOrdered before o =
    elim (Bool-cases (before.is_closed && (not before.stop_sent && can_send before))) [
      | inr held ↦ rw held o
      | inl may ↦
          (let (shut, rest) = both before.is_closed (not before.stop_sent && can_send before) may in
            let (fresh, _) = both (not before.stop_sent) (can_send before) rest in
            let stays = is_unsent before.stop_sent fresh in
            let (alive, last) = unsent before o stays in
            rw may (record {
              waiting = o.waiting;
              ending = true;
              queued =
                  ap (λ jobs. jobs ++ Job.stop ∷ []) (o.queued ∙ ap (queue_of o.waiting) last)
                  ∙ queue_of-stop o.waiting;
              ordered = o.ordered;
              ends = sym (or_true before.closed);
              sent = λ s. shut;
              over = λ c. absurd (clash before.closed c alive);
              counts = o.counts;
            }))
    ]

new_mailbox-IsOrdered : (queue_size : ℕ) → IsOrdered (new_mailbox queue_size)
unfolding new_mailbox
new_mailbox-IsOrdered queue_size = record {
  waiting = [];
  ending = false;
  queued = refl;
  ordered = refl;
  ends = refl;
  sent = λ s. cc;
  over = λ c. cc;
  counts = refl;
}

step-IsOrdered : (before after : Mailbox) → Step before after → IsOrdered before → IsOrdered after
step-IsOrdered before after (Step.submitted _ _ id h) o = submit-IsOrdered before id h o
step-IsOrdered before after (Step.counted _) o = count_job-IsOrdered before o
step-IsOrdered before after (Step.received _) o = receive-IsOrdered before o
step-IsOrdered before after (Step.finished _) o = finish_job-IsOrdered before o
step-IsOrdered before after (Step.closing _) o = begin_close-IsOrdered before o
step-IsOrdered before after (Step.stopping _) o = send_stop-IsOrdered before o

pub Reached-IsOrdered :
    (queue_size : ℕ) (mailbox : Mailbox) → Reached queue_size mailbox → IsOrdered mailbox
Reached-IsOrdered queue_size mailbox Reached.start = new_mailbox-IsOrdered queue_size
Reached-IsOrdered queue_size mailbox (Reached.next before _ earlier step) =
    step-IsOrdered before mailbox step (Reached-IsOrdered queue_size before earlier)

-- Nothing overtakes, and at most one job runs.
pub record IsInOrder (mailbox : Mailbox) : Type 0 where
  pub waiting : List ℕ
  pub in_order : mailbox.admitted ≡ mailbox.started ++ waiting
  pub no_more_than_one : length mailbox.started ≡ mailbox.inflight_removed + busy mailbox.running
  pub none_lost :
      (mailbox.closed ≡ false) ⊎ ((mailbox.admitted ≡ mailbox.started) × (mailbox.is_closed ≡ true))

-- Whatever the interleaving of submissions, counts, receives, ends of jobs and the two parts of
-- Close, the jobs of a mailbox start in the order of their admission, the rest of those admitted
-- still waits, each once, and at most one job runs: the number of starts is that of the ends, and
-- one more while a job runs. Once the worker has ended, every admitted job was started and the
-- mailbox refuses more.
pub Reached-IsInOrder :
    (queue_size : ℕ) (mailbox : Mailbox) → Reached queue_size mailbox → IsInOrder mailbox
Reached-IsInOrder queue_size mailbox reached =
    let o = Reached-IsOrdered queue_size mailbox reached in
    record {
      waiting = o.waiting;
      in_order = o.ordered;
      no_more_than_one = o.counts;
      none_lost = elim (Bool-cases mailbox.closed) [
        | inr alive ↦ inl alive
        | inl over ↦ inr (
          o.ordered
              ∙ ap (λ ids. mailbox.started ++ ids) (o.over over).0
              ∙ append-nil mailbox.started,
          o.sent (o.ends ∙ ap (λ b. b || o.ending) over),
        )
      ];
    }
