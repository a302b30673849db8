-- ===== src/Common/Publication/Verified.antt =====
-- What `manifest_matches` of common/publication.py accepts.
use fleet_lambda_platform.Base.{
  String, true, false, Option, none, some, List, [], ◌∷◌, All, all, elem, ◌==◌, ◌≡◌, ◌≢◌, ◌↔◌, refl,
  arith, inl, inr, Bool-cases, Option-cases, string_eq, list_eq, nat_eq, pair_eq, bool_eq,
  option_eq, eq-ne, list_beq_iff, option_beq_iff,
}
use fleet_lambda_platform.Base.Dict.{lookup}
use fleet_lambda_platform.Base.Paths.{PurePath, codes, suffix, join}
use fleet_lambda_platform.Common.Publication.{
  Bytes, Disk, key, ExportItem, ExportManifest, report_formats, export_matches, is_unsafe,
  format_matches, manifest_matches,
}

module _ (sha256 : Bytes → String) (disk : Disk) (root : PurePath) where
  -- The promised file of one format: its path stays below the root and has the suffix, and the
  -- bytes on disk have the committed digest.
  pub record IsCommitted (f : String) (item : ExportItem) : Type 0 where
    pub is_relative : item.path.absolute ≡ false
    pub is_nonempty : item.path.parts ≢ []
    pub stays_below : elem ".." item.path.parts ≡ false
    pub has_suffix : suffix item.path ≡ b'.' ∷ codes f
    pub digest : String
    pub is_promised : item.sha256 ≡ some digest
    pub digest_nonempty : digest ≢ ""
    pub bytes : Bytes
    pub on_disk : lookup (key (join root item.path)) disk ≡ some bytes
    pub has_digest : sha256 bytes ≡ digest

  -- What `export_matches` accepts.
  abbrev Exported : PurePath → Option String → Type 0
  Exported p promised =
      (digest : String) × (bytes : Bytes) × (promised ≡ some digest)
      × (digest ≢ "")
      × (lookup (key p) disk ≡ some bytes)
      × (sha256 bytes ≡ digest)

  export_matches-Exported :
      (p : PurePath) (promised : Option String)
      → export_matches sha256 disk p promised ≡ true
      → Exported p promised
  unfolding export_matches
  export_matches-Exported p none h = cc
  export_matches-Exported p (some d) h = elim (Bool-cases (d == "")) [
    | inl e ↦ cc (rw e at h)
    | inr ne ↦ elim (Option-cases (lookup (key p) disk)) [
      | inl absent ↦ ground arith
      | inr (b, there) ↦ (
        d,
        b,
        refl,
        ground (arith, string_eq.beq_iff d ""),
        there,
        ground (arith, string_eq.beq_iff (sha256 b) d),
      )
    ]
  ]

  pub Exported-export_matches :
      (p : PurePath) (promised : Option String)
      → Exported p promised
      → export_matches sha256 disk p promised ≡ true
  unfolding export_matches
  Exported-export_matches p promised (d, b, e, ne, there, same) =
      rw (e, eq-ne d "" ne) (ground (arith, string_eq.beq_iff (sha256 b) d))

  pub not-unsafe :
      (f : String) (p : PurePath)
      → is_unsafe f p ≡ false
      → (p.parts ≢ [])
        × (p.absolute ≡ false)
        × (elem ".." p.parts ≡ false)
        × (suffix p ≡ b'.' ∷ codes f)
  not-unsafe f p h =
      ground (arith, list_beq_iff p.parts [], list_beq_iff (suffix p) (b'.' ∷ codes f))

  pub safe_path :
      (f : String) (p : PurePath)
      → p.parts ≢ []
      → p.absolute ≡ false
      → elem ".." p.parts ≡ false
      → suffix p ≡ b'.' ∷ codes f
      → is_unsafe f p ≡ false
  safe_path f p a b c d =
      ground (arith, list_beq_iff p.parts [], list_beq_iff (suffix p) (b'.' ∷ codes f))

  abbrev pub Promised : List (String × ExportItem) → String → Type 0
  Promised files f = (item : ExportItem) × (lookup f files ≡ some item) × IsCommitted f item

  format_matches-Promised :
      (files : List (String × ExportItem)) (f : String)
      → format_matches sha256 disk root files f ≡ true
      → Promised files f
  unfolding format_matches
  format_matches-Promised files f h = elim (Option-cases (lookup f files)) [
    | inl absent ↦ ground arith
    | inr (item, there) ↦ elim (Bool-cases (is_unsafe f item.path)) [
      | inl bad ↦ ground arith
      | inr good ↦
          let (ne, rel, below, suf) = not-unsafe f item.path good in
          let (d, b, e, dn, on, same) =
            export_matches-Exported (join root item.path) item.sha256 (ground arith) in
          (
            item,
            there,
            record {
              is_relative = rel;
              is_nonempty = ne;
              stays_below = below;
              has_suffix = suf;
              digest = d;
              is_promised = e;
              digest_nonempty = dn;
              bytes = b;
              on_disk = on;
              has_digest = same;
            },
          )
    ]
  ]

  pub Promised-format_matches :
      (files : List (String × ExportItem)) (f : String)
      → Promised files f
      → format_matches sha256 disk root files f ≡ true
  unfolding format_matches
  Promised-format_matches files f (item, there, c) = ground (
    arith,
    safe_path f item.path c.is_nonempty c.is_relative c.stays_below c.has_suffix,
    Exported-export_matches (join root item.path) item.sha256
        (c.digest, c.bytes, c.is_promised, c.digest_nonempty, c.on_disk, c.has_digest),
  )

  -- Version 1, the four formats and no other, and each format's file committed.
  abbrev pub IsPublished : Option ExportManifest → Type 0
  IsPublished none = ⊥
  IsPublished (some m) =
      (m.version ≡ some 1)
      × All (λ f. Promised m.files f) report_formats
      × (all (λ e. elem e.0 report_formats) m.files ≡ true)

  -- `manifest_matches` holds exactly when the manifest has version 1, names the four report formats
  -- and no other, and for each of them the promised path is a nonempty relative path without ".."
  -- and with the format's suffix, and the file there has the promised, nonempty digest.
  pub manifest_matches_iff :
      (m : Option ExportManifest) → (manifest_matches sha256 disk root m ≡ true) ↔ IsPublished m
  unfolding manifest_matches
  manifest_matches_iff none = (λ h. cc, λ h. absurd h)
  manifest_matches_iff (some m) = (
    λ h. (
      (option_beq_iff m.version (some 1)).0 (ground arith),
      (
        format_matches-Promised m.files "json" (ground arith),
        (
          format_matches-Promised m.files "csv" (ground arith),
          (
            format_matches-Promised m.files "html" (ground arith),
            (format_matches-Promised m.files "parquet" (ground arith), tt),
          ),
        ),
      ),
      ground arith,
    ),
    λ (v, (j, (c, (t, (p, _)))), only). ground (
      arith,
      option_beq_iff m.version (some 1),
      Promised-format_matches m.files "json" j,
      Promised-format_matches m.files "csv" c,
      Promised-format_matches m.files "html" t,
      Promised-format_matches m.files "parquet" p,
      j.1,
      c.1,
      t.1,
      p.1,
    ),
  )
