-- ===== src/Common/Publication/Roundtrip.antt =====
-- How `build_export_manifest` and `manifest_matches` of common/publication.py relate.
use fleet_lambda_platform.Base.{
  ℕ, String, true, false, Option, none, some, List, [], ◌∷◌, ◌++◌, All, In, All-In, All-of_In, elem,
  all, ◌==◌, not, ◌≡◌, ◌≢◌, refl, sym, ap, ◌∙◌, arith, inl, inr, Option-cases, string_eq, list_eq,
  nat_eq, bool_eq, pair_eq,
}
use fleet_lambda_platform.Base.Dict.{
  lookup, insert, keys, elem-keys-lookup, All-insert, lookup-All, all-keys,
}
use fleet_lambda_platform.Base.Result.{ok, raise_if, >>=-eq-ok, ok-injective}
use fleet_lambda_platform.Base.Paths.{
  PurePath, codes, suffix, suffix_of, from_last_dot, lstrip_dots, dotted, file_name, join,
  strip_parts,
}
use fleet_lambda_platform.Common.Publication.{
  Bytes, Disk, key, ExportItem, ExportManifest, report_formats, missing_formats, read_bytes,
  relative_to, by_format, export_item, export_items, build_export_manifest, manifest_matches,
}
use fleet_lambda_platform.Common.Publication.Verified.{IsCommitted, Promised, manifest_matches_iff}

no_dot_in_front : (cs : List ℕ) → from_last_dot cs ≡ none → lstrip_dots cs ≡ cs
unfolding from_last_dot lstrip_dots
no_dot_in_front [] h = refl
no_dot_in_front (c ∷ cs) h = ground arith

after_last_dot :
    (cs u : List ℕ) (d : ℕ) → from_last_dot cs ≡ some (d ∷ u) → (d ≡ b'.') × (lstrip_dots u ≡ u)
unfolding from_last_dot
after_last_dot [] u d h = cc
after_last_dot (c ∷ cs) u d h = elim (Option-cases (from_last_dot cs)) [
  | inl e ↦ ground (arith, no_dot_in_front cs e)
  | inr (s, e) ↦ after_last_dot cs u d (ground arith)
]

dotted-lstrip :
    (o : Option (List ℕ)) (ext : List ℕ)
    → ((d : ℕ) (u : List ℕ) → o ≡ some (d ∷ u) → (d ≡ b'.') × (lstrip_dots u ≡ u))
    → ext ≢ []
    → lstrip_dots (dotted o) ≡ ext
    → dotted o ≡ b'.' ∷ ext
unfolding lstrip_dots
dotted-lstrip none ext shape ne h = absurd (ne (sym h))
dotted-lstrip (some []) ext shape ne h = absurd (ne (sym h))
dotted-lstrip (some (d ∷ [])) ext shape ne h = absurd (ne (sym h))
dotted-lstrip (some (d ∷ c ∷ cs)) ext shape ne h = ground (arith, shape d (c ∷ cs))

-- A suffix without its dots has lost just the one in front.
suffix_of-lstrip :
    (name ext : List ℕ)
    → ext ≢ []
    → lstrip_dots (suffix_of name) ≡ ext
    → suffix_of name ≡ b'.' ∷ ext
unfolding suffix_of
suffix_of-lstrip [] ext ne h = absurd (ne (sym h ∙ unfold lstrip_dots in refl))
suffix_of-lstrip (c ∷ cs) ext ne h =
    dotted-lstrip (from_last_dot cs) ext (λ d u e. after_last_dot cs u d e) ne h

file_name-append : (rs ps : List String) → ps ≢ [] → file_name (rs ++ ps) ≡ file_name ps
unfolding file_name
file_name-append [] ps ne = refl
file_name-append (r ∷ []) [] ne = absurd (ne refl)
file_name-append (r ∷ []) (p ∷ ps) ne = refl
file_name-append (r ∷ q ∷ rs) ps ne = file_name-append (q ∷ rs) ps ne

strip_parts-append :
    (rs ps : List String) (qs : List String) → strip_parts rs ps ≡ some qs → ps ≡ rs ++ qs
unfolding strip_parts
strip_parts-append [] ps qs h = ground arith
strip_parts-append (r ∷ rs) [] qs h = cc
strip_parts-append (r ∷ rs) (p ∷ ps) qs h =
    ground (arith, string_eq.beq_iff r p, strip_parts-append rs ps qs)

-- A relative path leads back to the path that it was made from.
relative_to-join :
    (root p rel : PurePath)
    → relative_to root p ≡ ok rel
    → (rel.absolute ≡ false) × (p.absolute ≡ root.absolute) × (p.parts ≡ root.parts ++ rel.parts)
unfolding relative_to
relative_to-join root p rel h = elim (Option-cases (strip_parts root.parts p.parts)) [
  | inl e ↦ ground arith
  | inr (qs, e) ↦ ground (arith, strip_parts-append root.parts p.parts qs e)
]

-- The path under each format has that suffix, and is one of the given paths.
abbrev Named : List PurePath → List ℕ × PurePath → Type 0
Named given e = (lstrip_dots (suffix e.1) ≡ e.0) × In e.1 given

by_format-Named :
    (given ps : List PurePath) (found : List (List ℕ × PurePath))
    → All (λ p. In p given) ps
    → All (Named given) found
    → All (Named given) (by_format ps found)
unfolding by_format
by_format-Named given [] found hp hf = hf
by_format-Named given (p ∷ ps) found hp hf =
    by_format-Named given ps (insert (lstrip_dots (suffix p)) p found) hp.1
      (All-insert (Named given) (lstrip_dots (suffix p)) p found (refl, hp.0) hf)

In-self : (xs : List PurePath) → All (λ p. In p xs) xs
In-self xs = All-of_In (λ p. In p xs) xs (λ p m. m)

suffix-lstrip :
    (p : PurePath) (ext : List ℕ) → ext ≢ [] → lstrip_dots (suffix p) ≡ ext → suffix p ≡ b'.' ∷ ext
unfolding suffix
suffix-lstrip p = suffix_of-lstrip (codes (file_name p.parts))

-- The suffix of a path is that of the part below the root.
suffix-below :
    (root p q : PurePath) → p.parts ≡ root.parts ++ q.parts → q.parts ≢ [] → suffix q ≡ suffix p
unfolding suffix
suffix-below root p q e ne =
    ap (λ name. suffix_of (codes name))
      (sym (file_name-append root.parts q.parts ne) ∙ ap file_name (sym e))

read_bytes-lookup :
    (disk : Disk) (p : PurePath) (b : Bytes)
    → read_bytes disk p ≡ ok b
    → lookup (key p) disk ≡ some b
unfolding read_bytes
read_bytes-lookup disk p b h = ground arith

key-join :
    (root p q : PurePath)
    → p.absolute ≡ root.absolute
    → p.parts ≡ root.parts ++ q.parts
    → (disk : Disk) (b : Bytes) → lookup (key p) disk ≡ some b
    → lookup (key (join root q)) disk ≡ some b
key-join root p q a e disk b h = cc

module _ (sha256 : Bytes → String) (disk : Disk) (root : PurePath) where
  -- What a built entry records: the path of its format, below the root, and its digest.
  abbrev Built : List (List ℕ × PurePath) → String × ExportItem → Type 0
  Built found e =
      (path : PurePath) × (lookup (codes e.0) found ≡ some path)
      × (relative_to root path ≡ ok e.1.path)
      × (bytes : Bytes) × (read_bytes disk path ≡ ok bytes)
      × (e.1.sha256 ≡ some (sha256 bytes))

  export_item-Built :
      (found : List (List ℕ × PurePath)) (f : String) (path : PurePath) (item : ExportItem)
      → lookup (codes f) found ≡ some path
      → export_item sha256 disk root path ≡ ok item
      → Built found (f, item)
  unfolding export_item
  export_item-Built found f path item there h =
      let (rel, e, rest) = >>=-eq-ok (relative_to root path) _ h in
      let (bytes, r, made) = >>=-eq-ok (read_bytes disk path) _ rest in
      (path, there, rw e (ground arith), bytes, r, ground arith)

  export_items-Built :
      (found : List (List ℕ × PurePath)) (fs : List String) (items : List (String × ExportItem))
      → export_items sha256 disk root found fs ≡ ok items
      → (keys items ≡ fs) × All (Built found) items
  unfolding export_items
  export_items-Built found [] items h = rw (← ok-injective h) (refl, tt)
  export_items-Built found (f ∷ fs) items h = elim (Option-cases (lookup (codes f) found)) [
    | inl e ↦ ground arith
    | inr (path, e) ↦
        let (item, made, more) =
          >>=-eq-ok (export_item sha256 disk root path) _ (rw (e, export_items) at h) in
        let (rest, r, same) = >>=-eq-ok (export_items sha256 disk root found fs) _ more in
        let (ks, bs) = export_items-Built found fs rest r in
        rw (← ok-injective same) (ap (◌∷◌ f) ks, (export_item-Built found f path item e made, bs))
  ]

  -- A path of a report: below the root, and nowhere up from there.
  pub record IsReportPath (p : PurePath) : Type 0 where
    pub below : List String
    pub is_below : p.parts ≡ root.parts ++ below
    pub is_nonempty : below ≢ []
    pub no_parent : elem ".." below ≡ false

  append-cancel : (rs xs ys : List String) → rs ++ xs ≡ rs ++ ys → xs ≡ ys
  append-cancel [] xs ys h = h
  append-cancel (r ∷ rs) xs ys h = append-cancel rs xs ys (ground arith)

  Built-IsCommitted :
      (nonempty : (b : Bytes) → sha256 b ≢ "") (given : List PurePath)
      (found : List (List ℕ × PurePath)) (f : String) (item : ExportItem)
      → codes f ≢ []
      → All IsReportPath given
      → All (Named given) found
      → Built found (f, item)
      → IsCommitted sha256 disk root f item
  Built-IsCommitted nonempty given found f item fne safe named (path, there, rel, bytes, r, sha) =
      let (dots, member) = lookup-All (Named given) (codes f) path found named there in
      let ok_path = All-In IsReportPath path given safe member in
      let (rabs, pabs, pparts) = relative_to-join root path item.path rel in
      let same =
        append-cancel root.parts item.path.parts ok_path.below (sym pparts ∙ ok_path.is_below) in
      let suf = suffix-below root path item.path pparts (λ e. ok_path.is_nonempty (sym same ∙ e)) in
      record {
        is_relative = rabs;
        is_nonempty = λ e. ok_path.is_nonempty (sym same ∙ e);
        stays_below = ap (elem "..") same ∙ ok_path.no_parent;
        has_suffix = suf ∙ suffix-lstrip path (codes f) fne dots;
        digest = sha256 bytes;
        is_promised = sha;
        digest_nonempty = nonempty bytes;
        bytes = bytes;
        on_disk =
            key-join root path item.path pabs pparts disk bytes
              (read_bytes-lookup disk path bytes r);
        has_digest = refl;
      }

  Built-Promised :
      (nonempty : (b : Bytes) → sha256 b ≢ "") (given : List PurePath)
      (found : List (List ℕ × PurePath)) (files : List (String × ExportItem))
      → All IsReportPath given
      → All (Named given) found
      → keys files ≡ report_formats
      → All (Built found) files
      → (f : String) → elem f report_formats ≡ true
      → codes f ≢ []
      → Promised sha256 disk root files f
  Built-Promised nonempty given found files safe named ks built f known fne =
      let (item, there) = elem-keys-lookup f files (ap (elem f) ks ∙ known) in
      (
        item,
        there,
        Built-IsCommitted nonempty given found f item fne safe named
            (lookup-All (Built found) f item files built there),
      )

  -- A manifest that was built from report paths below the root is accepted on the same disk, if no
  -- digest is the empty text.
  pub build_export_manifest-manifest_matches :
      ((b : Bytes) → sha256 b ≢ "")
      → (paths : List PurePath) (m : ExportManifest) → All IsReportPath paths
      → build_export_manifest sha256 disk paths root ≡ ok m
      → manifest_matches sha256 disk root (some m) ≡ true
  unfolding build_export_manifest
  build_export_manifest-manifest_matches nonempty paths m safe h =
      let found = by_format paths [] in
      let (_, _, more) = >>=-eq-ok (raise_if (not (missing_formats found == [])) _) _ h in
      let (files, e, same) =
        >>=-eq-ok (export_items sha256 disk root found report_formats) _ more in
      let (ks, built) = export_items-Built found report_formats files e in
      let named = by_format-Named paths paths [] (In-self paths) tt in
      let promised = Built-Promised nonempty paths found files safe named ks built in
      (manifest_matches_iff sha256 disk root (some m)).1 (
        rw (← ok-injective same) (
          refl,
          (
            promised "json" refl (λ p. cc),
            (
              promised "csv" refl (λ p. cc),
              (promised "html" refl (λ p. cc), (promised "parquet" refl (λ p. cc), tt)),
            ),
          ),
          all-keys (λ f. elem f report_formats) files ∙ ap (all (λ f. elem f report_formats)) ks,
        ))
