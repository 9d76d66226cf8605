-- ===== src/Media/Ingest/Lists/Current.antt =====
-- What the list of a user shows, from the cache or the database.
use vparser.Prelude.{
  run, ap, subst, ◌⊎◌, ◌∙◌, sym, inl, inr, Bool-cases, ◌++◌, ◌≡◌, refl, Bool, true, false, Option,
  some, List, [], ◌∷◌, arith, All,
}
use vparser.Prelude.Int.{ℤ, int_eq_iff}
use vparser.Redis.{Link, up, executed}
use vparser.Go.Bytes.{Bytes}
use vparser.Mq.Effects.{Answer, answer, error}
use vparser.Media.{MediaFile, require_owned_media}
use vparser.Prelude.Runs.{run_keeps}
use vparser.Media.Ingest.{
  World, Calls, remember_content_hash, invalidate_user_list, remove_uploaded_object, inserted, told,
  with_name, save_uploaded_media, save_reference, rows_of, cached, list_by_user, row_of,
  without_row, find_row, Deletion, delete_owned_media, delete_owned, found_row,
}
use vparser.Media.Ingest.Lists.{
  Event, save, refer, delete, ask, fill, list_ends, invalidates, delete_invalidates, Draft, Site,
  no_draft, has_id, guarded, drafted, filled, step, Agrees,
}
use vparser.Media.Ingest.Lists.Rows.{
  Distinct, IsFresh, Keeps, drafts-kept, without_row-Distinct, without_row-Keeps, Adds, Adds-Keeps,
  Adds-Distinct, with_name-Adds,
}

module _ (encode : List MediaFile → Answer Bytes) (decode : Bytes → Option (List MediaFile))
    (reads : (rows : List MediaFile) (text : Bytes)
      → encode rows ≡ answer text
      → decode text ≡ some rows) where
  with_name-Agrees :
      (undo : World → World) (c : Calls) (url : Bytes) (user : ℤ) (md5 : Bytes) (w : World)
      (name : Answer Bytes)
      → ((v : World) → ((undo v).rows ≡ v.rows) × ((undo v).lists ≡ v.lists))
      → invalidates c ≡ true
      → Agrees encode decode w
      → Agrees encode decode (with_name undo c url user md5 w name).1
  unfolding told remember_content_hash invalidate_user_list rows_of
  with_name-Agrees undo c url user md5 w (error e) keeps ok h u =
      rw ((keeps w).0, (keeps w).1) (h u)
  with_name-Agrees undo c url user md5 w (answer name) keeps ok h u =
      let w1 = inserted c.insert (row_of c name url user md5) w in
      ground (arith, ok, h u, keeps w1, int_eq_iff u user, int_eq_iff user u)

  cached-Agrees :
      (write : Link) (user : ℤ) (w : World) (rows : List MediaFile) (r : Answer Bytes)
      → encode rows ≡ r
      → rows ≡ rows_of user w.rows
      → Agrees encode decode w
      → Agrees encode decode (cached encode decode write user w rows r)
  cached-Agrees write user w rows (error e) same fresh h u = h u
  cached-Agrees write user w rows (answer text) same fresh h u =
      ground (arith, same, reads rows text, fresh, h u, int_eq_iff u user)

  cached-rows :
      (write : Link) (user : ℤ) (w : World) (rows : List MediaFile) (r : Answer Bytes)
      → (cached encode decode write user w rows r).rows ≡ w.rows
  cached-rows write user w rows (error e) = refl
  cached-rows write user w rows (answer text) = ground arith

  delete_owned-Agrees :
      (d : Deletion) (id user : ℤ) (w : World) (r : Answer MediaFile)
      → ((m : MediaFile) → r ≡ answer m → Keeps user w.rows (without_row id w.rows))
      → delete_invalidates d ≡ true
      → Agrees encode decode w
      → Agrees encode decode (delete_owned d id user w r).1
  unfolding remove_uploaded_object invalidate_user_list
  delete_owned-Agrees d id user w (error e) keeps ok h u = h u
  delete_owned-Agrees d id user w (answer m) keeps ok h u = ground (arith, ok, h u, keeps m refl u)

  delete_owned-rows :
      (d : Deletion) (id user : ℤ) (w : World) (r : Answer MediaFile)
      → ((delete_owned d id user w r).1.rows ≡ w.rows)
        ⊎ ((m : MediaFile) × (r ≡ answer m)
            × ((delete_owned d id user w r).1.rows ≡ without_row id w.rows))
  unfolding remove_uploaded_object invalidate_user_list
  delete_owned-rows d id user w (error e) = inl refl
  delete_owned-rows d id user w (answer m) = elim (Bool-cases (executed d.delete)) [
    | inl done ↦ inr (m, refl, ground (arith, done))
    | inr not_done ↦ inl (ground (arith, not_done))
  ]

  owned_row :
      (query : Link) (id user : ℤ) (rows : List MediaFile) (m : MediaFile)
      → require_owned_media (found_row query (find_row id rows)) user ≡ answer m
      → (find_row id rows ≡ some m) × (m.user_id ≡ user)
  unfolding require_owned_media
  owned_row query id user rows m h =
      (ground (arith, h), ground (arith, h, int_eq_iff m.user_id user))

  abbrev Inv : Site → Type 0
  Inv s = Agrees encode decode s.world × Distinct s.world.rows × All (IsFresh s.world.rows) s.drafts

  moved-Inv :
      (s : Site) (user : ℤ) (w : World)
      → Agrees encode decode w
      → Distinct w.rows
      → Keeps user s.world.rows w.rows
      → no_draft user s.drafts ≡ true
      → Inv s
      → Inv (record s { world = w })
  moved-Inv s user w agrees distinct keeps idle (_, _, fresh) =
      (agrees, distinct, drafts-kept user s.world.rows w.rows s.drafts keeps idle fresh)

  added-Inv :
      (s : Site) (user id : ℤ) (w : World)
      → Agrees encode decode w
      → Adds user id s.world.rows w.rows
      → has_id id s.world.rows ≡ false
      → no_draft user s.drafts ≡ true
      → Inv s
      → Inv (record s { world = w })
  added-Inv s user id w agrees adds new idle (h, distinct, fresh) =
      moved-Inv s user w agrees (Adds-Distinct user id _ _ new distinct adds)
        (Adds-Keeps user id _ _ adds) idle (h, distinct, fresh)

  delete_owned_media-Inv :
      (s : Site) (d : Deletion) (id user : ℤ)
      → delete_invalidates d ≡ true
      → no_draft user s.drafts ≡ true
      → Inv s
      → Inv (record s { world = (delete_owned_media d id user s.world).1 })
  unfolding delete_owned_media
  delete_owned_media-Inv s d id user ok idle (h, distinct, fresh) =
      let rows = s.world.rows in
      let r = require_owned_media (found_row d.query (find_row id rows)) user in
      let keeps : (m : MediaFile) → r ≡ answer m → Keeps user rows (without_row id rows) = λ m e.
        let (found, owner) = owned_row d.query id user rows m e in
        subst (λ u. Keeps u rows (without_row id rows)) owner
          (without_row-Keeps id rows m distinct found) in
      let agrees = delete_owned-Agrees d id user s.world r keeps ok h in
      elim (delete_owned-rows d id user s.world r) [
        | inl same ↦
            moved-Inv s user (delete_owned d id user s.world r).1 agrees
              (subst Distinct (sym same) distinct) (λ u other. ap (rows_of u) same) idle
              (h, distinct, fresh)
        | inr (m, e, gone) ↦
            moved-Inv s user (delete_owned d id user s.world r).1 agrees
              (subst Distinct (sym gone) (without_row-Distinct id rows distinct))
              (λ u other. ap (rows_of u) gone ∙ keeps m e u other) idle (h, distinct, fresh)
      ]

  drafted-Fresh :
      (get query : Link) (user : ℤ) (w : World) (drafts : List Draft)
      → All (IsFresh w.rows) drafts
      → All (IsFresh w.rows) (drafts ++ drafted encode decode get query user w)
  drafted-Fresh get query user w [] h = ground arith
  drafted-Fresh get query user w (d ∷ drafts) (fresh, h) =
      (fresh, drafted-Fresh get query user w drafts h)

  filled-Inv :
      (write : Link) (w : World) (drafts : List Draft)
      → Inv (record { world = w; drafts = drafts })
      → Inv (filled encode decode write w drafts)
  filled-Inv write w [] h = h
  filled-Inv write w (d ∷ drafts) (h, distinct, (fresh, rest)) =
      let same = cached-rows write d.0 w d.1 (encode d.1) in
      (
        cached-Agrees write d.0 w d.1 (encode d.1) refl fresh h,
        subst Distinct (sym same) distinct,
        subst (λ rows. All (IsFresh rows) drafts) (sym same) rest,
      )

  taken : (ready : Bool) (s v : Site) → guarded ready s ≡ some v → (ready ≡ true) × (s ≡ v)
  taken true s v h = (refl, cc h)
  taken false s v h = absurd (cc h)

  same_site : {s v : Site} → some s ≡ some v → s ≡ v
  same_site h = cc h

  step-Inv : (s v : Site) (e : Event) → step encode decode s e ≡ some v → Inv s → Inv v
  unfolding step save_uploaded_media save_reference remove_uploaded_object
  step-Inv s v (save c name url user md5) moved (h, distinct, fresh) =
      let (ok, is) = taken _ _ v moved in
      let undo = remove_uploaded_object c.remove url in
      subst Inv is (
        added-Inv s user c.row_id (save_uploaded_media c name url user md5 s.world).1
          (with_name-Agrees undo c url user md5 s.world _ (λ w. (ground arith, ground arith))
            (ground (arith, ok)) h)
          (with_name-Adds undo c url user md5 s.world _ (λ w. ground arith)) (ground (arith, ok))
          (ground (arith, ok)) (h, distinct, fresh))
  step-Inv s v (refer c name url user md5) moved (h, distinct, fresh) =
      let (ok, is) = taken _ _ v moved in
      subst Inv is (
        added-Inv s user c.row_id (save_reference c name url user md5 s.world).1
          (with_name-Agrees (λ w. w) c url user md5 s.world _ (λ w. (refl, refl))
            (ground (arith, ok)) h)
          (with_name-Adds (λ w. w) c url user md5 s.world _ (λ w. refl)) (ground (arith, ok))
          (ground (arith, ok)) (h, distinct, fresh))
  step-Inv s v (delete d id user) moved h =
      let (ok, is) = taken _ _ v moved in
      subst Inv is (delete_owned_media-Inv s d id user (ground (arith, ok)) (ground (arith, ok)) h)
  step-Inv s v (ask get query user) moved (h, distinct, fresh) =
      subst Inv (same_site moved) (h, distinct, drafted-Fresh get query user s.world s.drafts fresh)
  step-Inv s v (fill write) moved h =
      subst Inv (same_site moved) (filled-Inv write s.world s.drafts h)
  step-Inv s v (list_ends user) moved (h, distinct, fresh) =
      subst Inv (same_site moved) (λ u. ground (arith, h u), distinct, fresh)

  -- The JSON of a list can be read back, the ids of rows differ, and at first every cached list is that
  -- of the database and no list is under way. Every row that is inserted or deleted is reported so and
  -- its user's list then invalidated, while no list of that user is between the query and the cache;
  -- whatever else fails or ends, and however the lists of other users interleave: a list is answered
  -- as the database has it, from the cache or not, if the database can be asked.
  pub lists_current :
      (events : List Event) (w : World) (s : Site) (get write : Link) (user : ℤ)
      → Agrees encode decode w
      → Distinct w.rows
      → run (step encode decode) (record { world = w; drafts = [] }) events ≡ some s
      → (list_by_user encode decode get up write user s.world).0
        ≡ answer (rows_of user s.world.rows)
  unfolding list_by_user
  lists_current events w s get write user h distinct ran =
      let (says, apart, fresh) =
        run_keeps (step encode decode) Inv step-Inv (record { world = w; drafts = [] }) s events ran
          (h, distinct, tt) in
      let mine = says user in ground (arith, mine)
