-- ===== src/Bootloader/Order.antt =====
-- `boot`: what has happened when the bootloader jumps.
use espbewi.Common.{ℕ, ◌≡◌, refl, ◌∙◌, inl, inr, List}
use espbewi.Common.Result.{Result, ok, Result-cases}
use espbewi.Common.Exec.{Exec, lift, bind_ok, ◌>>=◌, ◌>>◌}
use espbewi.Boot.{Rom}
use espbewi.BootEntries.{BootCore}
use espbewi.Ota.{AppSlot}
use espbewi.Platform.{MemoryMap}
use espbewi.Bootloader.{BootError, Layout, app, Image, Plan, Planner, Loader}
use espbewi.Bootloader.Stages.{
  set_flash_size, read_layout, read_otadata, execute_all, validate, copy_segments, map_segments,
  load_image, load, image_ok, chosen, boot,
}

module _ {S E : Type 0} (rom : Rom S) (core : BootCore E) (planner : Planner S E)
    (loader : Loader S) (map : MemoryMap) where
  abbrev begin_mapping : Exec S BootError ℕ
  begin_mapping s = let (a, s') = loader.cache_begin_mapping s in (ok a, s')

  abbrev finish_mapping : Image → ℕ → Exec S BootError ℕ
  finish_mapping image autoload s =
      (ok image.entry, loader.delay_us 50000 (loader.cache_finish_mapping autoload s))

  abbrev map_and_jump : Image → Exec S BootError ℕ
  map_and_jump image = begin_mapping >>= λ autoload.
      map_segments rom core planner loader map image.segments >> finish_mapping image autoload

  load_image-entry :
      (image : Image) (s : S) (entry : ℕ)
      → (load_image rom core planner loader map image s).0 ≡ ok entry
      → image.entry ≡ entry
  unfolding load_image
  load_image-entry image s entry e =
      let (a, copied, run) =
        bind_ok (copy_segments rom core planner loader map image.segments) (λ _. map_and_jump image)
          s entry e in
      let e1 = rw run at e in
      let s1 = (copy_segments rom core planner loader map image.segments s).1 in
      let (autoload, begun, run1) =
        bind_ok begin_mapping
          (λ autoload.
            map_segments rom core planner loader map image.segments
            >> finish_mapping image autoload)
          s1 entry e1 in
      let e2 = rw run1 at e1 in
      let (b, mapped, run2) =
        bind_ok (map_segments rom core planner loader map image.segments)
          (λ _. finish_mapping image autoload) (begin_mapping s1).1 entry e2 in
      let e3 = rw run2 at e2 in cc

  load-entry :
      (layout : Layout) (slot : AppSlot) (s : S) (entry : ℕ)
      → (load rom core planner loader map layout slot s).0 ≡ ok entry
      → (image : Image) × ((validate rom core planner loader map (app layout slot) s).0 ≡ ok image)
        × (image.entry ≡ entry)
        × (load rom core planner loader map layout slot s
            ≡ load_image rom core planner loader map image
                (validate rom core planner loader map (app layout slot) s).1)
  unfolding load
  load-entry layout slot s entry e =
      let check = validate rom core planner loader map (app layout slot) in
      elim (Result-cases (check s).0) [
        | inr (c, refused) ↦ let e' = rw refused at e in absurd (cc)
        | inl (image, good) ↦
            let e' = rw good at e in
            (image, good, load_image-entry image (check s).1 entry e', rw good refl)
      ]

  -- The states after the stages of a run from `s`.
  abbrev pub sized : S → S
  sized s = (set_flash_size rom s).1

  abbrev pub located : S → S
  located s = (read_layout rom (sized s)).1

  abbrev pub plan_of : Layout → List (List ℕ) → S → Plan E × S
  plan_of layout raws s =
      planner.plan_boot raws (image_ok rom core planner loader map layout)
        (read_otadata rom core layout (located s)).1

  abbrev pub written : Layout → List (List ℕ) → S → Result BootError (Unit {0}) × S
  written layout raws s =
      let (plan, s') = plan_of layout raws s in execute_all rom core plan.writes layout s'

  -- A run from `s` that comes to jump to `entry`, stage by stage.
  pub record Jumps (s : S) (entry : ℕ) : Type 0 where
    pub layout : Layout
    pub raws : List (List ℕ)
    pub slot : AppSlot
    pub image : Image
    pub has_layout : (read_layout rom (sized s)).0 ≡ ok layout
    pub has_entries : (read_otadata rom core layout (located s)).0 ≡ ok raws
    pub is_chosen : chosen (plan_of layout raws s).0.choice ≡ ok slot
    pub all_written : (written layout raws s).0 ≡ ok tt
    pub is_valid :
        (validate rom core planner loader map (app layout slot) (written layout raws s).1).0
        ≡ ok image
    pub is_entry : image.entry ≡ entry
    pub is_run :
        boot rom core planner loader map s
        ≡ load_image rom core planner loader map image
            (validate rom core planner loader map (app layout slot) (written layout raws s).1).1

  abbrev pub go_on : Layout → Plan E → Exec S BootError ℕ
  go_on layout plan = do
    slot ← lift (chosen plan.choice)
    execute_all rom core plan.writes layout
    load rom core planner loader map layout slot

  abbrev pub make_plan : Layout → List (List ℕ) → Exec S BootError (Plan E)
  make_plan layout raws s =
      let (p, s') = planner.plan_boot raws (image_ok rom core planner loader map layout) s in
      (ok p, s')

  abbrev pub after_layout : Layout → Exec S BootError ℕ
  after_layout layout = do
    raws ← read_otadata rom core layout
    plan ← make_plan layout raws
    go_on layout plan

  go_on_stages :
      (layout : Layout) (plan : Plan E) (s : S) (entry : ℕ)
      → (go_on layout plan s).0 ≡ ok entry
      → (slot : AppSlot) × (image : Image) × (chosen plan.choice ≡ ok slot)
        × ((execute_all rom core plan.writes layout s).0 ≡ ok tt)
        × ((validate rom core planner loader map
              (app layout slot)
              (execute_all rom core plan.writes layout s).1).0
            ≡ ok image)
        × (image.entry ≡ entry)
        × (go_on layout plan s
            ≡ load_image rom core planner loader map image
                (validate rom core planner loader map
                  (app layout slot)
                  (execute_all rom core plan.writes layout s).1).1)
  go_on_stages layout plan s entry e =
      let (slot, picked, run) =
        bind_ok (lift (chosen plan.choice))
          (λ slot.
            execute_all rom core plan.writes layout >> load rom core planner loader map layout slot)
          s entry e in
      let e1 = rw run at e in
      let (a, done, run1) =
        bind_ok (execute_all rom core plan.writes layout)
          (λ _. load rom core planner loader map layout slot) s entry e1 in
      let (image, valid, jumped, loaded) =
        load-entry layout slot (execute_all rom core plan.writes layout s).1 entry
          (rw run1 at e1) in
      (slot, image, picked, done, valid, jumped, run ∙ run1 ∙ loaded)

  -- If `boot` comes to jump to `entry`, then it has read a layout and the entries, the plan made from
  -- them chose a slot, every entry update of the plan had succeeded before the image was loaded, and
  -- `entry` is the entry point of an image of that slot that was validated after the updates and then
  -- loaded.
  pub boot-Jumps :
      (s : S) (entry : ℕ) → (boot rom core planner loader map s).0 ≡ ok entry → Jumps s entry
  unfolding boot
  boot-Jumps s entry e =
      let (size, known, run) =
        bind_ok (set_flash_size rom) (λ _. read_layout rom >>= after_layout) s entry e in
      let e1 = rw run at e in
      let (layout, found, run1) = bind_ok (read_layout rom) after_layout (sized s) entry e1 in
      let e2 = rw run1 at e1 in
      let (raws, read, run2) =
        bind_ok (read_otadata rom core layout) (λ raws. make_plan layout raws >>= go_on layout)
          (located s) entry e2 in
      let e3 = rw run2 at e2 in
      let (slot, image, picked, done, valid, jumped, loaded) =
        go_on_stages layout (plan_of layout raws s).0 (plan_of layout raws s).1 entry e3 in
      record {
        layout = layout;
        raws = raws;
        slot = slot;
        image = image;
        has_layout = found;
        has_entries = read;
        is_chosen = picked;
        all_written = done;
        is_valid = valid;
        is_entry = jumped;
        is_run = run ∙ run1 ∙ run2 ∙ loaded;
      }
