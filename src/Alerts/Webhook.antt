-- ===== src/Alerts/Webhook.antt =====
-- cosmos/app/webhook_notifier.go: the posts to the webhook, with their retries. The HTTP client and the
-- clock act on the world, a type parameter; durations are milliseconds.
use nexus_node.Common.{
  ℕ, zero, suc, ◌+◌, ◌*◌, ◌≤◌, ◌≡◌, inl, inr, Bool, true, false, not, ◌&&◌, ◌||◌, String, str_eq,
  ◌==◌, leb, ltb, Bool-cases, if◌then◌else◌, arith,
}

pub record WebhookNotifier : Type 0 where
  pub url : String
  pub max_attempts : ℕ
  pub initial_backoff : ℕ

-- `webhookDefaultHTTPTimeout`
abbrev pub http_timeout : ℕ
http_timeout = 5000

-- `webhookDefaultMaxAttempts` and `webhookDefaultInitialBackoff`
abbrev pub new_webhook_notifier : String → WebhookNotifier
new_webhook_notifier url = record { url = url; max_attempts = 3; initial_backoff = 1000 }

-- What comes of one POST: no request is built, the client fails, or a status.
pub data PostReply : Type 0 where
  no_request network_error : PostReply
  status : ℕ → PostReply

-- The two results of `postOnce`: `sent` is a nil error, and an error is worth a retry or not.
pub data PostOutcome : Type 0 where
  sent retryable terminal : PostOutcome

judge_status : ℕ → PostOutcome
judge_status code =
    if leb 200 code && ltb code 300 then sent else if leb 500 code then retryable else terminal

-- `postOnce`
unfoldable pub post_once : PostReply → PostOutcome
unfolding judge_status
post_once no_request = terminal
post_once network_error = retryable
post_once (status code) = judge_status code

-- What the loop does after a post: `last` is whether it was the last attempt, and `rest` what comes of
-- the attempts behind it.
after_post : {World : Type 0} → PostOutcome → Bool → World → Bool × World → Bool × World
after_post sent last w rest = (true, w)
after_post terminal last w rest = (false, w)
after_post retryable last w rest = if last then (false, w) else rest

module _ {World : Type 0} (post : World → PostReply × World) (sleep : ℕ → World → World) where
  -- The loop with so many attempts left; the result is whether a post was sent.
  unfoldable pub attempts : ℕ → ℕ → World → Bool × World
  unfolding after_post
  attempts zero backoff w = (false, w)
  attempts (suc left) backoff w =
      let (reply, w1) = post w in
      after_post (post_once reply) (left == 0) w1 (attempts left (backoff * 2) (sleep backoff w1))

  -- `Notify`; `encodes` is whether the body is encoded. A receiver that is nil has no URL.
  unfoldable pub notify : WebhookNotifier → Bool → World → Bool × World
  notify n encodes w =
      if str_eq n.url "" || not encodes
      then (false, w)
      else attempts n.max_attempts n.initial_backoff w

-- The client's timeout and the clock: a post is counted and takes at most `http_timeout`, and a sleep
-- takes what it is told.
pub record PostLaws {World : Type 0} (post : World → PostReply × World) (sleep : ℕ → World → World)
    (posts clock : World → ℕ) : Type 0 where
  pub counted : (w : World) → posts (post w).1 ≡ posts w + 1
  pub timely : (w : World) → clock (post w).1 ≤ clock w + http_timeout
  pub quiet : (d : ℕ) (w : World) → posts (sleep d w) ≡ posts w
  pub sleeps : (d : ℕ) (w : World) → clock (sleep d w) ≡ clock w + d

-- The longest that so many attempts last.
abbrev budget : ℕ → ℕ → ℕ
budget zero backoff = 0
budget (suc left) backoff =
    if left == 0 then http_timeout else http_timeout + (backoff + budget left (backoff * 2))

module _ {World : Type 0} (post : World → PostReply × World) (sleep : ℕ → World → World)
    (posts clock : World → ℕ) (laws : PostLaws post sleep posts clock) where
  after_post-budget :
      (o : PostOutcome) (left backoff : ℕ) (w w1 : World) (rest : Bool × World)
      → posts w1 ≡ posts w + 1
      → clock w1 ≤ clock w + http_timeout
      → posts rest.1 ≤ posts w + suc left
      → clock rest.1 ≤ clock w + (http_timeout + (backoff + budget left (backoff * 2)))
      → (posts (after_post o (left == 0) w1 rest).1 ≤ posts w + suc left)
        × (clock (after_post o (left == 0) w1 rest).1 ≤ clock w + budget (suc left) backoff)
  unfolding after_post
  after_post-budget sent left backoff w w1 rest one fast few soon =
      (omega (arith, one), ground arith)
  after_post-budget terminal left backoff w w1 rest one fast few soon =
      (omega (arith, one), ground arith)
  after_post-budget retryable left backoff w w1 rest one fast few soon =
      (ground arith, ground arith)

  attempts-budget :
      (n backoff : ℕ) (w : World)
      → (posts (attempts post sleep n backoff w).1 ≤ posts w + n)
        × (clock (attempts post sleep n backoff w).1 ≤ clock w + budget n backoff)
  unfolding attempts
  attempts-budget zero backoff w = (omega arith, omega arith)
  attempts-budget (suc left) backoff w =
      let one = laws.counted w in
      let fast = laws.timely w in
      let still = laws.quiet backoff (post w).1 in
      let slept = laws.sleeps backoff (post w).1 in
      let (few, soon) = attempts-budget left (backoff * 2) (sleep backoff (post w).1) in
      after_post-budget (post_once (post w).0) left backoff w (post w).1 _ one fast
        (omega (arith, one, still, few)) (omega (arith, fast, slept, soon))

  -- With the default settings, and an HTTP client that keeps its timeout, `Notify` makes at most three
  -- posts and returns within 18 seconds: three timeouts of 5 seconds and two pauses of 1 and 2 seconds.
  pub notify_bounded :
      (url : String) (encodes : Bool) (w : World)
      → (posts (notify post sleep (new_webhook_notifier url) encodes w).1 ≤ posts w + 3)
        × (clock (notify post sleep (new_webhook_notifier url) encodes w).1 ≤ clock w + 18000)
  unfolding notify
  notify_bounded url encodes w =
      let (few, soon) = attempts-budget 3 1000 w in
      elim (Bool-cases (str_eq url "" || not encodes)) [
        | inl off ↦ rw off (omega arith, omega arith)
        | inr on ↦ rw on (few, soon)
      ]
