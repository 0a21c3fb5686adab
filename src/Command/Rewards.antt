-- ===== src/Command/Rewards.antt =====
-- What an accepted claim of a chapter's reward does (server/internal/player/claim_reward.go).
use mathlib.Core.Path.{subst}
use supernova_classic_farm.Base.{
  ℕ, ◌+◌, ◌≤◌, ◌≡◌, refl, sym, ap, ◌∙◌, Bool, true, false, not, ◌||◌, Option, none, some, List, [],
  ◌∷◌, ◌++◌, arith, ok, ◌==◌, ltb, if◌then◌else◌, length, u64, max_int64, ltb_false→le, Bool-cases,
  inl, inr, All,
}
use supernova_classic_farm.Base.Map.{read}
use supernova_classic_farm.Wire.{ChapterStatus, ItemStackView, Payload, PayloadKind, kind_of}
use supernova_classic_farm.Config.{ChapterConfig, ConfigSnapshot, chapter_config}
use supernova_classic_farm.Player.{State, all_tasks_complete, advance_versions}
use supernova_classic_farm.Player.Outbox.{PendingOutbox, RewardMail}
use supernova_classic_farm.Command.Accepted.{passed_check, found_value, accepted}
use supernova_classic_farm.Command.Granting.{
  quantity_in, rewarded_of, IsBounded, grant_items-IsGranted,
}
use supernova_classic_farm.Command.ClaimReward.{
  grant_items, is_claimed, is_claimable, current_config, following_chapter, max_mail_size,
  build_reward_mail_outbox, reward_outbox, chapter_moved_on, rewarded, grant_reward,
  claim_reward_decide,
}

-- The message of the mail with what does not fit.
abbrev pub mail_of : ℕ → List ℕ → ChapterConfig → List ItemStackView → RewardMail
mail_of player request_id chapter pending = record {
  recipient_player_id = player;
  attachments = pending;
  chapter_id = chapter.chapter_id;
  chapter_config_version = chapter.config_version;
  request_id = request_id;
}

-- One mail with the pending items, if there are any.
pub record IsMailed (marshal : RewardMail → Option (List ℕ)) (mail : RewardMail)
    (mails : List PendingOutbox) : Type 0 where
  pub count : length mails ≡ (if length mail.attachments == 0 then 0 else 1)
  pub contents : All (λ posted. marshal mail ≡ some posted.payload) mails

-- What is true of a claim that was accepted.
pub record Claimed {B : Type 0} (marshal : RewardMail → Option (List ℕ)) (caller : ℕ)
    (request_id : List ℕ) (config : ConfigSnapshot) (chapter_id : ℕ) (state changed : State B)
    (payload : Payload) : Type 0 where
  pub chapter : ChapterConfig
  pub configured : chapter_config config state.chapter_id ≡ some chapter
  pub current : chapter_id ≡ state.chapter_id
  pub claimable : state.chapter ≡ ChapterStatus.claimable
  pub complete : all_tasks_complete state.tasks ≡ true
  pub paid : changed.coins ≡ state.coins + chapter.reward_coins
  pub coins_bounded : changed.coins ≤ max_int64
  pub pending : List ItemStackView
  pub conserved :
      (item_id : ℕ)
      → read changed.inventory item_id + quantity_in item_id pending
        ≡ read state.inventory item_id + rewarded_of item_id chapter.reward_items
  pub bounded : IsBounded changed.inventory
  pub mails : List PendingOutbox
  pub mailed : changed.pending_outbox ≡ state.pending_outbox ++ mails
  pub posted : IsMailed marshal (mail_of caller request_id chapter pending) mails
  pub moved_on : ¬ (changed.chapter ≡ ChapterStatus.claimable)
  pub plots : changed.plots ≡ state.plots
  pub player_seq : changed.player_seq ≡ u64 (state.player_seq + 1)
  pub results : changed.recent_results ≡ state.recent_results
  pub answer : kind_of payload ≡ PayloadKind.claim_chapter_reward

claimable_status :
    (status : ChapterStatus) → is_claimable status ≡ true → status ≡ ChapterStatus.claimable
claimable_status ChapterStatus.unspecified h = cc
claimable_status ChapterStatus.in_progress h = cc
claimable_status ChapterStatus.claimable h = refl
claimable_status ChapterStatus.claimed h = cc

both_hold : (a b : Bool) → (not a || not b) ≡ false → (a ≡ true) × (b ≡ true)
both_hold true true h = (refl, refl)
both_hold true false h = cc
both_hold false b h = cc

current_config-some :
    (found : Option ChapterConfig) (version : ℕ) (chapter : ChapterConfig)
    → current_config found version ≡ some chapter
    → found ≡ some chapter
unfolding current_config
current_config-some none version chapter h = cc
current_config-some (some other) version chapter h = kept (other.config_version == version) h
  where
    kept : (b : Bool) → (if b then some other else none) ≡ some chapter → some other ≡ some chapter
    kept true h = h
    kept false h = cc

posted_mail :
    (marshal : RewardMail → Option (List ℕ)) (mail : RewardMail) (body : Option (List ℕ))
    (size : List ℕ → Bool) (record_of : List ℕ → PendingOutbox) (mails : List PendingOutbox)
    → ((bytes : List ℕ) → (record_of bytes).payload ≡ bytes)
    → marshal mail ≡ body
    → (elim (elim body as (λ _. Option PendingOutbox) [
      | none ↦ none
      | some bytes ↦ if size bytes then none else some (record_of bytes)
    ])
        as (λ _. Option (List PendingOutbox)) [ none ↦ none | some one ↦ some (one ∷ []) ])
      ≡ some mails
    → (length mails ≡ 1) × All (λ posted. marshal mail ≡ some posted.payload) mails
posted_mail marshal mail none size record_of mails same e h = cc
posted_mail marshal mail (some bytes) size record_of mails same e h =
    elim (Bool-cases (size bytes)) [
      | inl big ↦ absurd (none_is (rw big at h))
      | inr small ↦
          subst (λ ms. (length ms ≡ 1) × All (λ posted. marshal mail ≡ some posted.payload) ms)
            (list_of (rw small at h)) (refl, (e ∙ ap some (sym (same bytes)), tt))
    ]
  where
    none_is : none ≡ some mails → ⊥
    none_is h = cc

    list_of : some (record_of bytes ∷ []) ≡ some mails → (record_of bytes ∷ []) ≡ mails
    list_of h = cc

reward_outbox-IsMailed :
    (sha256 : List ℕ → List ℕ) (marshal : RewardMail → Option (List ℕ)) (player : ℕ)
    (request_id : List ℕ) (chapter : ChapterConfig) (pending : List ItemStackView)
    (owner_epoch player_seq now_ms : ℕ) (mails : List PendingOutbox)
    → reward_outbox sha256 marshal player request_id chapter pending owner_epoch player_seq now_ms
      ≡ some mails
    → IsMailed marshal (mail_of player request_id chapter pending) mails
unfolding reward_outbox build_reward_mail_outbox
reward_outbox-IsMailed sha256 marshal player request_id chapter [] owner_epoch player_seq now_ms
      mails h =
    rw (← nil_of h) (record { count = refl; contents = tt })
  where
    nil_of : some [] ≡ some mails → [] ≡ mails
    nil_of h = cc
reward_outbox-IsMailed sha256 marshal player request_id chapter (item ∷ pending) owner_epoch
      player_seq now_ms mails h =
    let mail = mail_of player request_id chapter (item ∷ pending) in
    let (count, contents) =
      posted_mail marshal mail (marshal mail) (λ body. ltb max_mail_size (length body)) _ mails
        (λ bytes. refl) refl h in
    record { count = ground arith; contents = contents }

moved_chapter :
    {B : Type 0} (state : State B) (next : Option ChapterConfig) (now_ms : ℕ)
    → ¬ ((chapter_moved_on state next now_ms).chapter ≡ ChapterStatus.claimable)
unfolding chapter_moved_on
moved_chapter state none now_ms h = claimed_differs h
  where
    claimed_differs : ChapterStatus.claimed ≡ ChapterStatus.claimable → ⊥
    claimed_differs h = cc
moved_chapter state (some next) now_ms h = open_differs h
  where
    open_differs : ChapterStatus.in_progress ≡ ChapterStatus.claimable → ⊥
    open_differs h = cc

moved_plots :
    {B : Type 0} (state : State B) (next : Option ChapterConfig) (now_ms : ℕ)
    → ((chapter_moved_on state next now_ms).plots ≡ state.plots)
      × ((chapter_moved_on state next now_ms).player_seq ≡ state.player_seq)
      × ((chapter_moved_on state next now_ms).recent_results ≡ state.recent_results)
unfolding chapter_moved_on
moved_plots state none now_ms = (refl, refl, refl)
moved_plots state (some next) now_ms = (refl, refl, refl)

same_number : (m n : ℕ) → not (m == n) ≡ false → m ≡ n
same_number m n h = ground arith

-- The part of a claim that needs nothing of the inventory.
record Granting {B : Type 0} (sha256 : List ℕ → List ℕ) (marshal : RewardMail → Option (List ℕ))
    (caller : ℕ) (request_id : List ℕ) (config : ConfigSnapshot) (now_ms chapter_id : ℕ)
    (state changed : State B) (payload : Payload) : Type 0 where
  chapter : ChapterConfig
  next : Option ChapterConfig
  found : chapter_config config state.chapter_id ≡ some chapter
  own : not (chapter_id == state.chapter_id) ≡ false
  ready : (not (is_claimable state.chapter) || not (all_tasks_complete state.tasks)) ≡ false
  room : ltb max_int64 (state.coins + chapter.reward_coins) ≡ false
  mails : List PendingOutbox
  posted :
      reward_outbox sha256 marshal caller request_id chapter
        (grant_items chapter.reward_items state.inventory).items_pending
        state.owner_epoch
        (u64 (state.player_seq + 1))
        now_ms
      ≡ some mails
  same :
      changed
      ≡ advance_versions
          (rewarded state chapter next
            (grant_items chapter.reward_items state.inventory)
            mails
            now_ms)
          config.version
          now_ms
  told : kind_of payload ≡ PayloadKind.claim_chapter_reward

claim_reward-Granting :
    {B : Type 0} (sha256 : List ℕ → List ℕ) (marshal : RewardMail → Option (List ℕ)) (caller : ℕ)
    (config : ConfigSnapshot) (now_ms chapter_id : ℕ) (request_id : List ℕ) (state : State B)
    {changed : State B} {payload : Payload}
    → claim_reward_decide sha256 marshal caller config now_ms chapter_id request_id state
      ≡ ok (changed, payload)
    → Granting sha256 marshal caller request_id config now_ms chapter_id state changed payload
unfolding claim_reward_decide grant_reward
claim_reward-Granting sha256 marshal caller config now_ms chapter_id request_id state h =
    let (_, h1) = passed_check state (chapter_id == 0) _ _ h in
    let (own, h2) = passed_check state (not (chapter_id == state.chapter_id)) _ _ h1 in
    let (_, h3) = passed_check state (is_claimed state.chapter) _ _ h2 in
    let (ready, h4) =
      passed_check state (not (is_claimable state.chapter) || not (all_tasks_complete state.tasks))
        _ _ h3 in
    let (chapter, found, h5) =
      found_value state
        (current_config (chapter_config config state.chapter_id) state.chapter_config_version) _ _
        h4 in
    let (next, _, h6) = found_value state (following_chapter config chapter) _ _ h5 in
    let (room, h7) =
      passed_check state (ltb max_int64 (state.coins + chapter.reward_coins)) _ _ h6 in
    let (mails, posted, h8) =
      found_value state
        (reward_outbox sha256 marshal caller request_id chapter
          (grant_items chapter.reward_items state.inventory).items_pending state.owner_epoch
          (u64 (state.player_seq + 1)) now_ms)
        _ _ h7 in
    let (same, told) = accepted _ refl h8 in
    record {
      chapter = chapter;
      next = next;
      found = current_config-some _ _ chapter found;
      own = own;
      ready = ready;
      room = room;
      mails = mails;
      posted = posted;
      same = same;
      told = ap kind_of told;
    }

-- A claim that is accepted leaves the stored results and answers with a claim.
pub claim_reward-answer :
    {B : Type 0} (sha256 : List ℕ → List ℕ) (marshal : RewardMail → Option (List ℕ)) (caller : ℕ)
    (config : ConfigSnapshot) (now_ms chapter_id : ℕ) (request_id : List ℕ) (state : State B)
    {changed : State B} {payload : Payload}
    → claim_reward_decide sha256 marshal caller config now_ms chapter_id request_id state
      ≡ ok (changed, payload)
    → (changed.recent_results ≡ state.recent_results)
      × (kind_of payload ≡ PayloadKind.claim_chapter_reward)
unfolding rewarded advance_versions
claim_reward-answer sha256 marshal caller config now_ms chapter_id request_id state h =
    let g =
      claim_reward-Granting sha256 marshal caller config now_ms chapter_id request_id state h in
    (ap (λ s. s.recent_results) g.same ∙ (moved_plots state g.next now_ms).2, g.told)

-- A claim that is accepted, with no stack over 300 before, is of the player's current chapter,
-- which is claimable with all tasks complete. The chapter's coins are added without leaving the
-- int64 range. For every item, what the inventory holds afterwards and what stays pending add up
-- to what it held before and the reward; no stack is over 300; one mail with the pending items
-- joins the outbox exactly if there are any; the chapter is no longer claimable; plots and stored
-- results are kept, the sequence number advances and the answer is a claim.
pub claim_reward-Claimed :
    {B : Type 0} (sha256 : List ℕ → List ℕ) (marshal : RewardMail → Option (List ℕ)) (caller : ℕ)
    (config : ConfigSnapshot) (now_ms chapter_id : ℕ) (request_id : List ℕ) (state : State B)
    {changed : State B} {payload : Payload}
    → IsBounded state.inventory
    → claim_reward_decide sha256 marshal caller config now_ms chapter_id request_id state
      ≡ ok (changed, payload)
    → Claimed marshal caller request_id config chapter_id state changed payload
unfolding rewarded advance_versions
claim_reward-Claimed sha256 marshal caller config now_ms chapter_id request_id state fine h =
    let g =
      claim_reward-Granting sha256 marshal caller config now_ms chapter_id request_id state h in
    let granted = grant_items g.chapter.reward_items state.inventory in
    let (claimable, complete) = both_hold _ _ g.ready in
    let stocked = grant_items-IsGranted g.chapter.reward_items state.inventory fine in
    let kept = moved_plots state g.next now_ms in
    record {
      chapter = g.chapter;
      configured = g.found;
      current = same_number _ _ g.own;
      claimable = claimable_status state.chapter claimable;
      complete = complete;
      paid = ap (λ s. s.coins) g.same;
      coins_bounded = rw (ap (λ s. s.coins) g.same) (ltb_false→le _ _ g.room);
      pending = granted.items_pending;
      conserved = λ item_id.
          ap (λ s. read s.inventory item_id + quantity_in item_id granted.items_pending) g.same
          ∙ stocked.conserved item_id;
      bounded = λ item_id. rw (ap (λ s. read s.inventory item_id) g.same) (stocked.bounded item_id);
      mails = g.mails;
      mailed = ap (λ s. s.pending_outbox) g.same;
      posted =
          reward_outbox-IsMailed sha256 marshal caller request_id g.chapter _ _ _ now_ms g.mails
            g.posted;
      moved_on = λ e. moved_chapter state g.next now_ms (sym (ap (λ s. s.chapter) g.same) ∙ e);
      plots = ap (λ s. s.plots) g.same ∙ kept.0;
      player_seq = ap (λ s. s.player_seq) g.same ∙ ap (λ seq. u64 (seq + 1)) kept.1;
      results = ap (λ s. s.recent_results) g.same ∙ kept.2;
      answer = g.told;
    }
