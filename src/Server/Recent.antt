-- ===== src/Server/Recent.antt =====
-- internal/httpapi/recent.go: `handleRecent`. `strconv.Atoi` and `time.Parse` are parameters, where
-- a number below 0 reads as 0, which the bound refuses as well; so are the identity that the admin
-- guard finds, the text of an audit line, and the bytes of the delivery log.
pub mod Access
use hubbub.Common.{
  ℕ, Bool, true, false, not, ◌&&◌, ◌||◌, List, [], ◌∷◌, ◌++◌, Option, none, some, if◌then◌else◌,
  ltb, length, all,
}
use hubbub.Common.Bytes.{Bytes, codes, equal, mem}
use hubbub.Common.Assoc.{bytes_eq, lookup}
use hubbub.Config.Keys.{Caller, Keyring}
use hubbub.Dlog.{Kind, other, Record, Delivery, Query, empty_record, append}
use hubbub.Dlog.Page.{Page}
use hubbub.Server.{Metric, auth_failure, recent_read, Hub}
use hubbub.Server.Handlers.{Call, authenticate, clip, max_claimed_ip_bytes}

abbrev pub recent_default_limit : ℕ
recent_default_limit = 50

abbrev pub recent_max_limit : ℕ
recent_max_limit = 500

abbrev pub recent_params : List Bytes
recent_params = codes "limit" ∷ codes "since" ∷ codes "channel" ∷ []

-- `url.Values.Get`, of the first value of each name.
abbrev pub value_of : Bytes → List (Bytes × Bytes) → Bytes
value_of name values = elim (lookup name values) [ none ↦ [] | some v ↦ v ]

module _ (atoi parse_time : Bytes → Option ℕ) where
  abbrev pub limit_of : Bytes → Option ℕ
  limit_of raw = if equal raw [] then some recent_default_limit else elim (atoi raw) [
    | none ↦ none
    | some n ↦ (if ltb n 1 || ltb recent_max_limit n then none else some n)
  ]

  abbrev pub since_of : Bytes → Option ℕ
  since_of raw = if equal raw [] then some 0 else parse_time raw

  -- `parseRecentQuery`; `none` is its error.
  unfoldable pub parse_recent_query : List (Bytes × Bytes) → Option Query
  parse_recent_query values =
      if not (all (λ (v : Bytes × Bytes). mem v.0 recent_params) values)
      then none
      else elim (limit_of (value_of (codes "limit") values)) [
        | none ↦ none
        | some limit ↦ elim (since_of (value_of (codes "since") values)) [
          | none ↦ none
          | some since ↦
              some (record {
                limit = limit;
                since = since;
                channel = value_of (codes "channel") values;
              })
        ]
      ]

-- The identity that the guard finds: an address, and whether it is let in.
pub record Identity : Type 0 where
  pub email : Bytes
  pub permitted : Bool

pub data RecentResponse : Type 0 where
  denied : ℕ → RecentResponse
  deliveries : List Delivery → ℕ → Bool → RecentResponse

-- Who reads: a caller, or an operator, whose address is logged.
pub data Reader : Type 0 where
  caller : Caller → Reader
  operator : Bytes → Reader

-- What the refusal of a key without the grant says.
abbrev pub not_granted : Bytes
not_granted =
    codes "this key may send but not read the delivery log; "
    ++ codes "grant it with recent = true in keys.toml"

module _ {S : Type 0} where
  -- `denyRecent`.
  unfoldable pub deny_recent : Call → Bytes → Bytes → Bytes → Hub S → Hub S
  deny_recent c caller_id outcome msg h = record h {
    metrics = recent_read outcome ∷ h.metrics;
    log =
        append c.now
          (record empty_record {
            kind = other (codes "auth_fail");
            caller_id = caller_id;
            peer = c.peer;
            claimed_ip = clip c.forwarded_for max_claimed_ip_bytes;
            detail = codes "recent: " ++ msg;
          })
          h.log;
  }

  abbrev pub unauthorized : Call → Hub S → Hub S
  unauthorized c h =
      deny_recent c [] (codes "unauthorized") (codes "missing or unknown bearer key")
        (record h { metrics = auth_failure ∷ h.metrics })

  -- `authorizeRecent`: who reads, or the status of the refusal.
  unfoldable pub authorize_recent :
      Keyring → Option Identity → Call → Hub S → (Option Reader × ℕ) × Hub S
  authorize_recent ring admin c h =
      if not (equal c.authorization [])
      then elim (authenticate ring c.authorization) [
        | none ↦ ((none, 401), unauthorized c h)
        | some who ↦
            (if not who.recent
              then ((none, 403), deny_recent c who.id (codes "forbidden") not_granted h)
              else ((some (caller who), 200), h))
      ]
      else elim admin [
        | none ↦ ((none, 401), unauthorized c h)
        | some id ↦
            (if id.permitted
              then ((some (operator id.email), 200), h)
              else ((none, 401), unauthorized c h))
      ]

  -- `auditRead`.
  unfoldable pub audit_read : Call → Reader → Bytes → Hub S → Hub S
  audit_read c who detail h =
      let line = record empty_record {
        kind = other (codes "read");
        action = codes "recent";
        detail = detail;
      } in
      record h {
        log =
            append c.now
              (elim who [
                | caller k ↦ record line { caller_id = k.id }
                | operator email ↦ record line { actor = email }
              ])
              h.log;
      }

  abbrev pub read_counted : Bytes → Hub S → Hub S
  read_counted outcome h = record h { metrics = recent_read outcome ∷ h.metrics }

  -- `handleRecent`, with what a read of the log gives for a query, if it does not fail.
  unfoldable pub handle_recent :
      (Bytes → Option ℕ)
      → (Bytes → Option ℕ)
      → (Query → ℕ → Bytes)
      → (Query → Option Page)
      → Keyring
      → Option Identity
      → List (Bytes × Bytes)
      → Call
      → Hub S
      → RecentResponse × Hub S
  handle_recent atoi parse_time describe read ring admin values c h =
      let ((reader, code), h') = authorize_recent ring admin c h in
      elim reader [
        | none ↦ (denied code, h')
        | some who ↦ elim (parse_recent_query atoi parse_time values) [
          | none ↦ (denied 400, read_counted (codes "rejected") h')
          | some q ↦ elim (read q) [
            | none ↦ (denied 500, read_counted (codes "error") h')
            | some page ↦ (
              deliveries page.deliveries (length page.deliveries) page.truncated,
              audit_read c who (describe q (length page.deliveries)) (read_counted (codes "ok") h'),
            )
          ]
        ]
      ]
