-- ===== src/Core/Collecting/Rounds.antt =====
-- What one round of the loop of core/pipeline.py's `run_sync` can do, and what therefore holds after
-- all of them.
use ops_incident_collector.Prelude.{
  ℕ, String, Bool, true, false, List, [], ◌∷◌, ◌≡◌, refl, inl, inr, ◌==◌, Bool-cases, Result-cases,
  All, Action, Exc, Result, ok, raise, ◌>>◌,
}
use ops_incident_collector.Core.Models.{SourceItem, NormalizedDocument}
use ops_incident_collector.Core.Machine.{System}
use ops_incident_collector.Core.Collecting.{
  SyncRequest, Sync, skip, add_document, is_oversized, is_full, document_of, collect, is_changed,
  collect_changed, take_readable, see, take_item, take_items,
}
use ops_incident_collector.Config.Settings.{AppSettings}
use ops_incident_collector.Processors.PathPolicy.{is_denied_path}
use ops_incident_collector.Processors.FileFilter.{is_binary_file, is_supported_extension}

module _ (system : System) (settings : AppSettings) (request : SyncRequest) where
  -- A file that passes all the tests of the loop.
  pub record Admitted (item : SourceItem) : Type 0 where
    pub not_denied : is_denied_path item.relative_path settings.security.deny_patterns ≡ false
    pub not_empty : (item.size_bytes == 0) ≡ false
    pub not_oversized : is_oversized settings item ≡ false
    pub bytes : List ℕ
    pub read : system.files.read_bytes item.path ≡ ok bytes
    pub not_binary : is_binary_file bytes ≡ false
    pub supported : is_supported_extension item.extension ≡ true

  -- The outcomes of a round that begins in a state.
  pub data Round (item : SourceItem) (s : Sync) (r : Result (Unit {0}) × Sync) : Type 0 where
    failed : (exc : Exc) → r ≡ (raise exc, see system settings request s) → Round item s r
    skipped :
        (reason extension : String)
        → r ≡ (ok tt, skip reason extension (see system settings request s))
        → Round item s r
    collected :
        (content : String) (d : NormalizedDocument)
        → Admitted item
        → is_changed system settings request item (see system settings request s) ≡ ok true
        → system.files.read_text item.path ≡ ok content
        → document_of system settings request item content (see system settings request s) ≡ ok d
        → r ≡ (ok tt, add_document d (see system settings request s))
        → Round item s r

  module _ (item : SourceItem) (s : Sync) where
    abbrev seen : Sync
    seen = see system settings request s

    collect-Round :
        Admitted item
        → is_changed system settings request item seen ≡ ok true
        → Round item s (collect system settings request item seen)
    unfolding collect
    collect-Round a c = elim (Result-cases (system.files.read_text item.path)) [
      | inr (e, h) ↦ failed e (rw h refl)
      | inl (content, h) ↦
          elim (Result-cases (document_of system settings request item content seen)) [
            | inr (e, k) ↦ failed e (rw (h, k) refl)
            | inl (d, k) ↦ collected content d a c h k (rw (h, k) refl)
          ]
    ]

    collect_changed-Round :
        Admitted item → Round item s (collect_changed system settings request item seen)
    unfolding collect_changed
    collect_changed-Round a = elim (Result-cases (is_changed system settings request item seen)) [
      | inr (e, h) ↦ failed e (rw h refl)
      | inl (b, h) ↦ changed b h
    ]
      where
        changed :
            (b : Bool)
            → is_changed system settings request item seen ≡ ok b
            → Round item s (collect_changed system settings request item seen)
        changed true h = rw h (collect-Round a h)
        changed false h = skipped "unchanged" "" (rw h refl)

    take_readable-Round :
        (bytes : List ℕ)
        → is_denied_path item.relative_path settings.security.deny_patterns ≡ false
        → (item.size_bytes == 0) ≡ false
        → is_oversized settings item ≡ false
        → system.files.read_bytes item.path ≡ ok bytes
        → Round item s (take_readable system settings request item bytes seen)
    unfolding take_readable
    take_readable-Round bytes d z o h = elim (Bool-cases (is_binary_file bytes)) [
      | inl t ↦ skipped "binary" "" (rw t refl)
      | inr f ↦ elim (Bool-cases (is_supported_extension item.extension)) [
        | inr u ↦ skipped "unsupported_extension" item.extension (rw (f, u) refl)
        | inl v ↦
            rw (f, v)
              (collect_changed-Round (record {
                not_denied = d;
                not_empty = z;
                not_oversized = o;
                bytes = bytes;
                read = h;
                not_binary = f;
                supported = v;
              }))
      ]
    ]

    pub take_item-Round : Round item s (take_item system settings request item s)
    unfolding take_item
    take_item-Round =
        elim (Bool-cases (is_denied_path item.relative_path settings.security.deny_patterns)) [
          | inl t ↦ skipped "denied" "" (rw t refl)
          | inr d ↦ elim (Bool-cases (item.size_bytes == 0)) [
            | inl t ↦ skipped "empty" "" (rw (d, t) refl)
            | inr z ↦ elim (Bool-cases (is_oversized settings item)) [
              | inl t ↦ skipped "oversized" "" (rw (d, z, t) refl)
              | inr o ↦ elim (Result-cases (system.files.read_bytes item.path)) [
                | inr (e, h) ↦ failed e (rw (d, z, o, h) refl)
                | inl (bytes, h) ↦ rw (d, z, o, h) (take_readable-Round bytes d z o h)
              ]
            ]
          ]
        ]

  -- A property of the variables that every round of a file keeps which goes through holds after the
  -- loop, if the loop goes through.
  module _ {ℓ κ} (P : Sync → Type ℓ) (Q : SourceItem → Type κ)
      (step : (item : SourceItem) (s s' : Sync)
        → Q item
        → P s
        → Round item s (ok tt, s')
        → P s') where
    next_rounds :
        (item : SourceItem) (s : Sync) (r : Result (Unit {0})) (s' : Sync)
        (rest : Action Sync (Unit {0}))
        → Q item
        → P s
        → Round item s (r, s')
        → ((t : Sync) → P t → (rest t).0 ≡ ok tt → P (rest t).1)
        → (((λ _. (r, s')) >> rest) s).0 ≡ ok tt
        → P (((λ _. (r, s')) >> rest) s).1
    next_rounds item s (ok u) s' rest q p round k h = k s' (step item s s' q p round) h
    next_rounds item s (raise e) s' rest q p round k h = cc h

    pub take_items-keeps :
        (items : List SourceItem)
        → All Q items
        → (s : Sync) → P s
        → (take_items system settings request items s).0 ≡ ok tt
        → P (take_items system settings request items s).1
    unfolding take_items
    take_items-keeps [] q s p h = p
    take_items-keeps (item ∷ items) q s p h =
        by_full (is_full request.max_files s.summary.files_seen)
          (next_rounds item s (take_item system settings request item s).0
            (take_item system settings request item s).1 (take_items system settings request items)
            q.0 p (take_item-Round item s) (take_items-keeps items q.1))
          h
      where
        rounds : Action Sync (Unit {0})
        rounds = take_item system settings request item >> take_items system settings request items

        round : Bool → Action Sync (Unit {0})
        round full = elim full [ true ↦ λ t. (ok tt, t) | false ↦ rounds ]

        by_full :
            (full : Bool)
            → ((rounds s).0 ≡ ok tt → P (rounds s).1)
            → (round full s).0 ≡ ok tt
            → P (round full s).1
        by_full true k h = p
        by_full false k h = k h
