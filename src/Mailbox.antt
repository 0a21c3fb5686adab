-- ===== src/Mailbox.antt =====
-- The mailbox of an actor and its one worker: server/internal/actor/mailbox.go. A job's function is
-- a number. What other goroutines do is one step of the state each: a send on the channel, the
-- count that follows it, a receive, the end of a job. `admitted` and `started` record the order
-- of sends and of receives, which the code does not keep. A `Do` that still waits to be admitted
-- has not changed the state.
pub mod Order
pub mod Drain
mod Tests
use supernova_classic_farm.Base.{
  ℕ, ◌+◌, Bool, true, false, not, ◌&&◌, ◌||◌, Option, none, some, List, [], ◌∷◌, ◌++◌, Result, ok,
  err, ltb, ◌==◌, if◌then◌else◌, length,
}

-- `job`; the one without a function ends the worker. No caller submits a nil function.
pub data Job : Type 0 where
  task : ℕ → Job
  stop : Job

-- `inflight` is what was added to it less what was taken off.
pub record Mailbox : Type 0 where
  pub queue_size : ℕ
  pub jobs : List Job
  pub running : Option ℕ
  pub closed : Bool
  pub is_closed : Bool
  pub stop_sent : Bool
  pub inflight_added : ℕ
  pub inflight_removed : ℕ
  pub admitted : List ℕ
  pub started : List ℕ

pub data MailboxError : Type 0 where
  mailbox_closed mailbox_full : MailboxError

-- `NewMailbox`
unfoldable pub new_mailbox : ℕ → Mailbox
new_mailbox queue_size = record {
  queue_size = queue_size;
  jobs = [];
  running = none;
  closed = false;
  is_closed = false;
  stop_sent = false;
  inflight_added = 0;
  inflight_removed = 0;
  admitted = [];
  started = [];
}

abbrev pub waits : Option ℕ → Bool
waits none = true
waits (some id) = false

-- A send does not block if the buffer has room or the worker waits at an empty channel.
unfoldable pub can_send : Mailbox → Bool
can_send mailbox =
    ltb (length mailbox.jobs) mailbox.queue_size
    || (length mailbox.jobs == 0 && (waits mailbox.running && not mailbox.closed))

-- `Submit` up to its count, and `Do` when it is admitted without a wait.
unfoldable pub submit : Mailbox → ℕ → Result MailboxError Mailbox
unfolding can_send
submit mailbox id =
    if mailbox.is_closed
    then err MailboxError.mailbox_closed
    else if not (can_send mailbox)
    then err MailboxError.mailbox_full
    else ok (record mailbox {
      jobs = mailbox.jobs ++ Job.task id ∷ [];
      admitted = mailbox.admitted ++ id ∷ [];
    })

-- m.inflight.Add(1)
unfoldable pub count_job : Mailbox → Mailbox
count_job mailbox = record mailbox { inflight_added = mailbox.inflight_added + 1 }

unfoldable pub take_job : Mailbox → List Job → Mailbox
take_job mailbox [] = mailbox
take_job mailbox (Job.task id ∷ jobs) = record mailbox {
  jobs = jobs;
  running = some id;
  started = mailbox.started ++ id ∷ [];
}
take_job mailbox (Job.stop ∷ jobs) = record mailbox { jobs = jobs; closed = true }

-- The worker takes the next job, if it waits and there is one.
unfoldable pub receive : Mailbox → Mailbox
unfolding take_job
receive mailbox =
    if mailbox.closed || not (waits mailbox.running) then mailbox else take_job mailbox mailbox.jobs

abbrev pub finish_running : Mailbox → Option ℕ → Mailbox
finish_running mailbox none = mailbox
finish_running mailbox (some id) = record mailbox {
  running = none;
  inflight_removed = mailbox.inflight_removed + 1;
}

-- The worker comes to the end of its job.
unfoldable pub finish_job : Mailbox → Mailbox
finish_job mailbox = finish_running mailbox mailbox.running

-- The two parts of `Close`, of which only the first call does anything.
unfoldable pub begin_close : Mailbox → Mailbox
begin_close mailbox = record mailbox { is_closed = true }

unfoldable pub send_stop : Mailbox → Mailbox
unfolding can_send
send_stop mailbox =
    if mailbox.is_closed && (not mailbox.stop_sent && can_send mailbox)
    then record mailbox { jobs = mailbox.jobs ++ Job.stop ∷ []; stop_sent = true }
    else mailbox

unfoldable pub idle : Mailbox → Bool
idle mailbox = mailbox.inflight_added == mailbox.inflight_removed
