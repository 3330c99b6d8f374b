-- ===== src/Server/Handlers/Guards.antt =====
-- What `handleNotify` lets through to the outbox.
use hubbub.Common.{
  ℕ, ◌+◌, ◌*◌, ◌^◌, ◌≤◌, Bool, true, false, List, [], ◌∷◌, none, some, ◌≢◌, inl, inr, ◌≡◌, refl,
  arith, if◌then◌else◌, ◌==◌, length, all, any, Bool-cases, Option-cases,
}
use hubbub.Common.Bytes.{Bytes, mem}
use hubbub.Config.Keys.{Caller, permitted}
use hubbub.Notify.{Notification, parse_priority, validate}
use hubbub.Outbox.Spool.Order.{all-mem}
use hubbub.Ratelimit.{RateLimiter, allow}
use hubbub.Ratelimit.Window.{allow-retry}
use hubbub.Server.{Hub, Response, refusal, rate_capped, answer, status_code}
use hubbub.Server.Dispatch.{is_live}
use hubbub.Server.Dispatch.Keeps.{dispatch-keeps}
use hubbub.Server.Handlers.{
  authenticate, Selection, absent, unusable, chosen, selection, decode_notify, Call, Setup, sent,
  built, checked, targeted, admitted, retry_seconds, authenticated, handle_notify,
}

abbrev pub is_answer : Response → Bool
is_answer (refusal code) = false
is_answer (rate_capped s) = false
is_answer (answer code result id channels) = true

-- What holds before the call and still holds after an answer that is none.
abbrev Untouched : {S : Type 0} → Response × Hub S → Hub S → RateLimiter → List ℕ → Type 0
Untouched (r, after) h rate codes =
    is_answer r ≡ false
    → (after.engine ≡ h.engine)
      × (after.registry ≡ h.registry)
      × (after.rate ≡ rate)
      × (any (λ code. code == status_code r) codes ≡ true)

wait-allow : (now : ℕ) (r : RateLimiter) → (allow now r).0.0 ≡ false → 10 ^ 9 ≤ (allow now r).0.1
unfolding allow
wait-allow now r h = ground (arith, h)

retry_seconds_lem :
    (wait seconds : ℕ)
    → seconds ≡ retry_seconds wait
    → 10 ^ 9 ≤ wait
    → (1 ≤ seconds) × (wait ≤ seconds * 10 ^ 9)
retry_seconds_lem wait seconds e h = (omega (arith, e, h), omega (arith, e, h))

module _ {S A : Type 0} (u : Setup S A) where
  module _ (J : S → Type 0) where
    checked-keeps :
        (c : Call) (n : Notification) (targets : List Bytes) (h : Hub S)
        → ((id : Bytes) (st : S)
            → mem id targets ≡ true
            → is_live u.channels id ≡ true
            → validate n ≡ none
            → J st
            → J (u.ops.enqueue n id false st).1)
        → J h.engine
        → J (checked u c n targets h).1.engine
    unfolding checked sent
    checked-keeps c n [] h k j = j
    checked-keeps c n (id ∷ targets) h k j = elim (Option-cases (validate n)) [
      | inr (err, e) ↦ rw (e, checked) j
      | inl e ↦
          rw (e, checked)
            (dispatch-keeps u.ops n false J u.channels (id ∷ targets) c.arrivals h.registry h.engine
              (λ x st m l. k x st m l e) j)
    ]

    targeted-keeps :
        (c : Call) (caller : Caller) (s : Selection) (n : Notification) (h : Hub S)
        → ((id : Bytes) (st : S)
            → permitted caller id ≡ true
            → is_live u.channels id ≡ true
            → validate n ≡ none
            → J st
            → J (u.ops.enqueue n id false st).1)
        → J h.engine
        → J (targeted u c caller s n h).1.engine
    unfolding targeted
    targeted-keeps c caller absent n h k j = checked-keeps c n caller.channels h k j
    targeted-keeps c caller unusable n h k j = j
    targeted-keeps c caller (chosen []) n h k j = j
    targeted-keeps c caller (chosen (id ∷ ids)) n h k j =
        elim (Bool-cases (all (permitted caller) (id ∷ ids))) [
          | inl e ↦
              rw (e, targeted)
                (checked-keeps c n (id ∷ ids) h
                  (λ x st m. k x st (all-mem (permitted caller) x (id ∷ ids) e m)) j)
          | inr e ↦ rw (e, targeted) j
        ]

    admitted-keeps :
        (c : Call) (caller : Caller) (h : Hub S)
        → ((n : Notification) (id : Bytes) (st : S)
            → n.caller_id ≡ caller.id
            → permitted caller id ≡ true
            → is_live u.channels id ≡ true
            → validate n ≡ none
            → J st
            → J (u.ops.enqueue n id false st).1)
        → J h.engine
        → J (admitted u c caller h).1.engine
    unfolding admitted
    admitted-keeps c caller h k j = elim (Option-cases (decode_notify u.decode c.body)) [
      | inl d ↦ rw (d, admitted) j
      | inr (r, d) ↦ elim (Option-cases (parse_priority u.to_lower r.priority)) [
        | inl p ↦ rw (d, p, admitted) j
        | inr (priority, p) ↦
            rw (d, p, admitted)
              (targeted-keeps c caller (selection u.unmarshal r) (built u c caller r priority) h
                (λ id st. k (built u c caller r priority) id st refl) j)
      ]
    ]

    -- Whatever is kept by each enqueue that the call may make is kept by the call: an enqueue of a
    -- notification that Validate accepts, in the name of the caller whose key the call presents, on a
    -- channel which is among that caller's and which is enabled, and not as a test send.
    pub handle_notify-permitted :
        (c : Call) (h : Hub S)
        → ((caller : Caller) (n : Notification) (id : Bytes) (st : S)
            → authenticate u.keyring c.authorization ≡ some caller
            → n.caller_id ≡ caller.id
            → permitted caller id ≡ true
            → is_live u.channels id ≡ true
            → validate n ≡ none
            → J st
            → J (u.ops.enqueue n id false st).1)
        → J h.engine
        → J (handle_notify u c h).1.engine
    unfolding handle_notify authenticated
    handle_notify-permitted c h k j = elim (Option-cases (authenticate u.keyring c.authorization)) [
      | inl a ↦ rw (a, handle_notify) j
      | inr (caller, a) ↦ elim (Bool-cases (allow c.now h.rate).0.0) [
        | inr b ↦ rw (a, b, handle_notify) j
        | inl b ↦
            rw (a, b, handle_notify)
              (admitted-keeps c caller (record h { rate = (allow c.now h.rate).1 })
                (λ n id st. k caller n id st a) j)
      ]
    ]

  checked-Untouched :
      (c : Call) (n : Notification) (targets : List Bytes) (h : Hub S)
      → Untouched (checked u c n targets h) h h.rate (400 ∷ 403 ∷ [])
  unfolding checked sent
  checked-Untouched c n [] h e = (refl, refl, refl, refl)
  checked-Untouched c n (id ∷ targets) h e = ground (arith, e, Option-cases (validate n))

  targeted-Untouched :
      (c : Call) (caller : Caller) (s : Selection) (n : Notification) (h : Hub S)
      → Untouched (targeted u c caller s n h) h h.rate (400 ∷ 403 ∷ [])
  unfolding targeted
  targeted-Untouched c caller absent n h e = checked-Untouched c n caller.channels h e
  targeted-Untouched c caller unusable n h e = (refl, refl, refl, refl)
  targeted-Untouched c caller (chosen []) n h e = (refl, refl, refl, refl)
  targeted-Untouched c caller (chosen (id ∷ ids)) n h e =
      ground (
        arith,
        e,
        checked-Untouched c n (id ∷ ids) h,
        Bool-cases (all (permitted caller) (id ∷ ids)),
      )

  admitted-Untouched :
      (c : Call) (caller : Caller) (h : Hub S)
      → Untouched (admitted u c caller h) h h.rate (400 ∷ 403 ∷ [])
  unfolding admitted
  admitted-Untouched c caller h e = elim (Option-cases (decode_notify u.decode c.body)) [
    | inl d ↦ ground (arith, e, d)
    | inr (r, d) ↦ elim (Option-cases (parse_priority u.to_lower r.priority)) [
      | inl p ↦ ground (arith, e, d, p)
      | inr (priority, p) ↦ ground (
        arith,
        e,
        d,
        p,
        targeted-Untouched c caller (selection u.unmarshal r) (built u c caller r priority) h,
      )
    ]
  ]

  -- A call that is not answered with results leaves the outbox and the waiters as they were. Its
  -- status is 401, 429, 400 or 403; and a 401 leaves the rate limiter as it was too, while the others
  -- leave it as its test of the call does.
  pub handle_notify-refused :
      (c : Call) (h : Hub S)
      → is_answer (handle_notify u c h).0 ≡ false
      → ((handle_notify u c h).1.engine ≡ h.engine)
        × ((handle_notify u c h).1.registry ≡ h.registry)
        × (any (λ code. code == status_code (handle_notify u c h).0) (401 ∷ 429 ∷ 400 ∷ 403 ∷ [])
            ≡ true)
        × ((handle_notify u c h).1.rate ≡ (
            if status_code (handle_notify u c h).0 == 401 then h.rate else (allow c.now h.rate).1))
  unfolding handle_notify authenticated
  handle_notify-refused c h e = elim (Option-cases (authenticate u.keyring c.authorization)) [
    | inl a ↦ ground (arith, e, a)
    | inr (caller, a) ↦
        ground
          (arith, e, a, admitted-Untouched c caller (record h { rate = (allow c.now h.rate).1 }))
  ]

  admitted-capped :
      (c : Call) (caller : Caller) (h : Hub S) (s : ℕ) → (admitted u c caller h).0 ≢ rate_capped s
  admitted-capped c caller h s e = ground (arith, e, admitted-Untouched c caller h)

  -- A call that the rate cap refuses is told a whole number of seconds, at least one, after which it
  -- is under the cap again, when no other call was admitted between and the limiter held no more
  -- records than its cap.
  pub handle_notify-retry :
      (c : Call) (h : Hub S) (seconds : ℕ) (at : ℕ)
      → length h.rate.times ≤ h.rate.cap
      → (handle_notify u c h).0 ≡ rate_capped seconds
      → c.now + seconds * 10 ^ 9 ≤ at
      → (1 ≤ seconds) × ((allow at (handle_notify u c h).1.rate).0.0 ≡ true)
  unfolding handle_notify authenticated
  handle_notify-retry c h seconds at room e late =
      elim (Option-cases (authenticate u.keyring c.authorization)) [
        | inl a ↦ ground (arith, e, a)
        | inr (caller, a) ↦ elim (Bool-cases (allow c.now h.rate).0.0) [
          | inl b ↦ ground (
            arith,
            e,
            a,
            b,
            admitted-capped c caller (record h { rate = (allow c.now h.rate).1 }) seconds,
          )
          | inr b ↦
              let same : seconds ≡ retry_seconds (allow c.now h.rate).0.1 =
                ground (arith, e, a, b) in
              let (few, enough) =
                retry_seconds_lem (allow c.now h.rate).0.1 seconds same
                  (wait-allow c.now h.rate b) in
              (
                few,
                rw (a, b, handle_notify)
                    (allow-retry c.now at h.rate room b (omega (arith, late, enough))),
              )
        ]
      ]
