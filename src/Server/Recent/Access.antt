-- ===== src/Server/Recent/Access.antt =====
-- Who may read the delivery log, and how much one call gives.
use hubbub.Common.{
  ℕ, Bool, true, false, not, List, [], ◌∷◌, Option, none, some, inl, inr, ◌≡◌, refl, arith,
  if◌then◌else◌, Bool-cases, Option-cases,
}
use hubbub.Common.Bytes.{Bytes, codes, equal}
use hubbub.Common.Assoc.{bytes_eq}
use hubbub.Config.Keys.{Keyring}
use hubbub.Dlog.{other, Record, Query}
use hubbub.Dlog.Page.{Page}
use hubbub.Dlog.Recent.{recent}
use hubbub.Server.{Hub, auth_failure}
use hubbub.Server.Handlers.{Call, authenticate}
use hubbub.Server.Recent.{
  Identity, RecentResponse, denied, deliveries, deny_recent, not_granted, authorize_recent,
  handle_recent,
}

-- The credentials that open the log.
abbrev pub may_read : Keyring → Option Identity → Bytes → Bool
may_read ring admin auth =
    if not (equal auth [])
    then (elim (authenticate ring auth) [ none ↦ false | some who ↦ who.recent ])
    else (elim admin [ none ↦ false | some id ↦ id.permitted ])

abbrev pub discloses : RecentResponse → Bool
discloses (denied code) = false
discloses (deliveries ds count cut) = true

abbrev counted_failure : {S : Type 0} → Hub S → Hub S
counted_failure h = record h { metrics = auth_failure ∷ h.metrics }

module _ {S : Type 0} where
  deny_recent_line :
      (c : Call) (id outcome msg : Bytes) (h : Hub S)
      → (line : Record) × ((deny_recent c id outcome msg h).log ≡ line ∷ h.log)
        × (line.kind ≡ other (codes "auth_fail"))
  unfolding deny_recent
  deny_recent_line c id outcome msg h = (_, refl, refl)

  authorize_recent-refused :
      (ring : Keyring) (admin : Option Identity) (c : Call) (h : Hub S)
      → may_read ring admin c.authorization ≡ false
      → (line : Record) × ((authorize_recent ring admin c h).0.0 ≡ none)
        × ((authorize_recent ring admin c h).1.log ≡ line ∷ h.log)
        × (line.kind ≡ other (codes "auth_fail"))
  unfolding authorize_recent
  authorize_recent-refused ring admin c h m = elim (Bool-cases (equal c.authorization [])) [
    | inl e ↦
        let (line, l, k) =
          deny_recent_line c [] (codes "unauthorized") (codes "missing or unknown bearer key")
            (counted_failure h) in
        (
          line,
          ground (arith, m, e, Option-cases admin),
          ground (arith, m, e, l, Option-cases admin),
          k,
        )
    | inr e ↦ elim (Option-cases (authenticate ring c.authorization)) [
      | inl a ↦
          let (line, l, k) =
            deny_recent_line c [] (codes "unauthorized") (codes "missing or unknown bearer key")
              (counted_failure h) in
          (line, ground (arith, m, e, a), ground (arith, e, a, l), k)
      | inr (who, a) ↦
          let (line, l, k) = deny_recent_line c who.id (codes "forbidden") not_granted h in
          (line, ground (arith, m, e, a), ground (arith, m, e, a, l), k)
    ]
  ]

  -- Without a credential that opens the log (a known key with the grant, or, where no key is
  -- presented, an operator who is let in) a read discloses nothing, whatever it asks for, and leaves
  -- one line in the log, an authentication failure.
  pub handle_recent-refused :
      (atoi parse_time : Bytes → Option ℕ) (describe : Query → ℕ → Bytes)
      (read : Query → Option Page) (ring : Keyring) (admin : Option Identity)
      (values : List (Bytes × Bytes)) (c : Call) (h : Hub S)
      → may_read ring admin c.authorization ≡ false
      → (discloses (handle_recent atoi parse_time describe read ring admin values c h).0 ≡ false)
        × (line : Record) × ((handle_recent atoi parse_time describe read ring admin values c
              h).1.log
            ≡ line ∷ h.log)
        × (line.kind ≡ other (codes "auth_fail"))
  unfolding handle_recent
  handle_recent-refused atoi parse_time describe read ring admin values c h m =
      let (line, n, l, k) = authorize_recent-refused ring admin c h m in
      (ground (arith, n), line, ground (arith, n, l), k)
