-- ===== src/Confedit/Apply/Pipeline.antt =====
-- What `Apply` leaves on disk.
use hubbub.Common.{
  Bool, true, false, not, ◌||◌, Option, some, ◌⊎◌, inl, inr, [], ◌≡◌, ◌≢◌, sym, ap, ◌∙◌, arith,
  if◌then◌else◌, Bool-cases, Option-cases,
}
use hubbub.Common.Bytes.{Bytes, equal_iff}
use hubbub.Confedit.Apply.{
  Disk, ApplyFaults, Applied, written, not_synced, stage, sync_dir, commit, is_stale, last_look,
  write_out, apply,
}

-- The edit is in the file: what was read had the ETag and the last look found its hash again, if an
-- ETag was given; what was read and the candidate pass the loader, and the answer says whether the
-- directory was synced.
pub record IsLive (digest : Bytes → Bytes) (validate : Bytes → Bool) (io : ApplyFaults)
    (etag : Bytes) (edit : Bytes → Option Bytes) (meanwhile : Bytes → Bytes) (d : Disk)
    (r : Applied × Disk) : Type 0 where
  pub edited : edit d.file ≡ some r.1.file
  pub old_parses : validate d.file ≡ true
  pub new_parses : validate r.1.file ≡ true
  pub unchanged : etag ≢ [] → etag ≡ digest d.file
  pub still_unchanged : etag ≢ [] → digest d.file ≡ digest (meanwhile d.file)
  pub answered : r.0 ≡ (if sync_dir io then written r.1.file else not_synced)

-- The answers that report that the file was not written.
abbrev pub is_failure : Applied → Bool
is_failure (written out) = false
is_failure not_synced = false
is_failure _ = true

module _ (digest : Bytes → Bytes) (validate : Bytes → Bool) (io : ApplyFaults) (etag : Bytes)
    (edit : Bytes → Option Bytes) (meanwhile : Bytes → Bytes) (d : Disk) where
  -- A content that is not stale has the hash that was expected, if an ETag was given.
  same_etag :
      (expected content : Bytes)
      → is_stale digest etag expected content ≡ false
      → etag ≢ []
      → expected ≡ digest content
  same_etag expected content h given =
      ground (arith, h, given, equal_iff etag [], equal_iff expected (digest content))

  -- From the last look on, with the content that is there then.
  last_look_lem :
      (cur out : Bytes) (now : Disk)
      → let r = last_look digest io etag cur out now in
        ((is_failure r.0 ≡ true) × (r.1.file ≡ now.file))
        ⊎ ((is_stale digest etag cur now.file ≡ false)
            × (r.1.file ≡ out)
            × (r.0 ≡ (if sync_dir io then written out else not_synced)))
  unfolding last_look commit
  last_look_lem cur out now = elim (Bool-cases io.last_read_fails) [
    | inl e ↦ inl (ground (arith, e))
    | inr e ↦ elim (Bool-cases (is_stale digest etag cur now.file)) [
      | inl f ↦ inl (ground (arith, e, f))
      | inr f ↦ elim (Bool-cases io.rename_fails) [
        | inl g ↦ inl (ground (arith, e, f, g))
        | inr g ↦ inr (f, ground (arith, e, f, g), ground (arith, e, f, g))
      ]
    ]
  ]

  write_out_lem :
      (cur out : Bytes)
      → let r = write_out digest validate io etag cur meanwhile out d in
        ((is_failure r.0 ≡ true) × ((r.1.file ≡ d.file) ⊎ (r.1.file ≡ meanwhile d.file)))
        ⊎ ((validate out ≡ true)
            × (is_stale digest etag cur (meanwhile d.file) ≡ false)
            × (r.1.file ≡ out)
            × (r.0 ≡ (if sync_dir io then written out else not_synced)))
  unfolding write_out
  write_out_lem cur out = elim (Bool-cases (validate out)) [
    | inr v ↦ inl (ground (arith, v), inl (ground (arith, v)))
    | inl v ↦ elim (Bool-cases (stage io d.temps).0) [
      | inr s ↦ inl (ground (arith, v, s), inr (ground (arith, v, s)))
      | inl s ↦
          elim (last_look_lem cur out
            (record { file = meanwhile d.file; temps = (stage io d.temps).1 })) [
              | inl (f, k) ↦ inl (ground (arith, v, s, f), inr (ground (arith, v, s, k)))
              | inr (n, k, a) ↦ inr (v, n, ground (arith, v, s, k), ground (arith, v, s, a))
            ]
    ]
  ]

  -- Whichever system calls fail: either Apply reports an error and the file is as it was or as others
  -- have written it meanwhile, or the edit is in the file. Then both contents pass the loader, the
  -- answer is an error exactly if the directory was not synced, and where an ETag was given, what was
  -- read had it and what was there at the last look had the same hash; without one nothing is compared.
  pub apply_lem :
      ((is_failure (apply digest validate io etag edit meanwhile d).0 ≡ true)
        × (((apply digest validate io etag edit meanwhile d).1.file ≡ d.file)
            ⊎ ((apply digest validate io etag edit meanwhile d).1.file ≡ meanwhile d.file)))
      ⊎ IsLive digest validate io etag edit meanwhile d
          (apply digest validate io etag edit meanwhile d)
  unfolding apply
  apply_lem =
      elim (Bool-cases
        (io.read_fails || is_stale digest etag etag d.file || not (validate d.file))) [
          | inl e ↦ inl (ground (arith, e), inl (ground (arith, e)))
          | inr e ↦ elim (Option-cases (edit d.file)) [
            | inl f ↦ inl (ground (arith, e, f), inl (ground (arith, e, f)))
            | inr (out, f) ↦ elim (write_out_lem (digest d.file) out) [
              | inl (k, m) ↦ inl (ground (arith, e, f, k), ground (arith, e, f, m))
              | inr (v, n, k, a) ↦
                  let there : (apply digest validate io etag edit meanwhile d).1.file ≡ out =
                    ground (arith, e, f, k) in
                  inr (record {
                    edited = f ∙ ap some (sym there);
                    old_parses = ground (arith, e);
                    new_parses = ground (arith, there, v);
                    unchanged = same_etag etag d.file (ground (arith, e));
                    still_unchanged = same_etag (digest d.file) (meanwhile d.file) n;
                    answered = ground (arith, e, f, a, there);
                  })
            ]
          ]
        ]

-- Where a temp file can be removed, Apply leaves none of its own behind, whatever else fails.
pub apply-temps :
    (digest : Bytes → Bytes) (validate : Bytes → Bool) (io : ApplyFaults) (etag : Bytes)
    (edit : Bytes → Option Bytes) (meanwhile : Bytes → Bytes) (d : Disk)
    → io.remove_fails ≡ false
    → (apply digest validate io etag edit meanwhile d).1.temps ≡ d.temps
unfolding apply write_out last_look commit stage
apply-temps digest validate io etag edit meanwhile d h =
    elim (Bool-cases (io.read_fails || is_stale digest etag etag d.file || not (validate d.file))) [
      | inl e ↦ ground (arith, e)
      | inr e ↦ elim (Option-cases (edit d.file)) [
        | inl f ↦ ground (arith, e, f)
        | inr (out, f) ↦ ground (
          arith,
          e,
          f,
          h,
          Bool-cases (validate out),
          Bool-cases io.create_fails,
          Bool-cases (io.chmod_fails || io.write_fails || io.sync_fails || io.close_fails),
          Bool-cases io.last_read_fails,
          Bool-cases (is_stale digest etag (digest d.file) (meanwhile d.file)),
          Bool-cases io.rename_fails,
        )
      ]
    ]
