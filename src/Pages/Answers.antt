-- ===== src/Pages/Answers.antt =====
-- server/src/http/panels.ts: a page is answered with the panels that it has, whatever of them fails.
use skills_dashboard.Common.{
  suc, ◌≡◌, refl, ap, inl, inr, Bool, false, some, List, [], ◌∷◌, Bool-cases, Option-cases, length,
  All, Result, ok, err,
}
use skills_dashboard.Common.{ℤ, ◌⊎◌, none, if◌then◌else◌}
use skills_dashboard.Text.{Text}
use skills_dashboard.TextMap.{get}
use skills_dashboard.Window.{Window, buckets, resolve_window}
use skills_dashboard.Window.Resolve.{resolve_window-IsValid}
use skills_dashboard.Config.{Config}
use skills_dashboard.Payload.{
  Panel, new_panel, warn_panel, new_payload, add_panels, validate_payload,
}
use skills_dashboard.Payload.Checks.{PanelFits, validate_payload-add_panels}
use skills_dashboard.LogPanels.{Row}
use skills_dashboard.LogPanels.Fits.{Values, get-Values}
use skills_dashboard.Pages.{
  Engine, Builder, Request, answered, panel_builders, pages, finish, panel_or_warning, build_each,
  build_panels, with_window, handle_page,
}
use skills_dashboard.Requests.{Connection, request_config}
use skills_dashboard.Pages.Builders.{Sound, panel_builders-Sound}

-- The panels that were begun before the abort of the request.
abbrev pub begun : (Text → Bool) → List Text → List Text
begun aborted [] = []
begun aborted (id ∷ ids) = let rest = begun aborted ids in if aborted id then rest else id ∷ rest

module _ {V : Type 0} (e : Engine V) (conn : Connection) where
  panel_or_warning-Fits :
      (build : Builder V) (w : Window) (c : Config) (id : Text) (r : Result Text (Panel V (Row V)))
      → Sound build
      → build w c ≡ r
      → PanelFits (buckets w) (panel_or_warning id r)
  unfolding panel_or_warning new_panel warn_panel
  panel_or_warning-Fits build w c id (ok panel) s h = s w c panel h
  panel_or_warning-Fits build w c id (err message) s h = (tt, tt)

  build_each-Fits :
      (builders : List (Text × Builder V)) (aborted : Text → Bool) (w : Window) (c : Config)
      (ids : List Text)
      → Values Sound builders
      → All (PanelFits (buckets w)) (build_each builders aborted w c ids)
  unfolding build_each
  build_each-Fits builders aborted w c [] s = tt
  build_each-Fits builders aborted w c (id ∷ ids) s = elim (Option-cases (get id builders)) [
    | inl n ↦ rw (build_each, n) (build_each-Fits builders aborted w c ids s)
    | inr (build, f) ↦ elim (Bool-cases (aborted id)) [
      | inl a ↦ rw (build_each, f, a) (build_each-Fits builders aborted w c ids s)
      | inr a ↦
          rw (build_each, f, a)
            (
              panel_or_warning-Fits build w c id (build w c)
                  (get-Values Sound id build builders s f) refl,
              build_each-Fits builders aborted w c ids s,
            )
    ]
  ]

  build_panels-Fits :
      (r : Request) (w : Window) (c : Config) (ids : List Text)
      → All (PanelFits (buckets w)) (build_panels (panel_builders e conn) r w c ids)
  unfolding build_panels
  build_panels-Fits r w c ids = elim (Bool-cases r.aborted_first) [
    | inl a ↦ rw a tt
    | inr a ↦
        rw a
          (build_each-Fits (panel_builders e conn) r.aborted w c ids (panel_builders-Sound e conn))
  ]

  -- Every panel of a page has a builder.
  abbrev Known : Text → Type 0
  Known id = (build : Builder V) × (get id (panel_builders e conn) ≡ some build)

  pages-Known : Values (λ ids. All Known ids) pages
  unfolding pages panel_builders get
  pages-Known = (
    ((_, refl), ((_, refl), ((_, refl), ((_, refl), ((_, refl), ((_, refl), tt)))))),
    (
      ((_, refl), ((_, refl), ((_, refl), ((_, refl), tt)))),
      (
        ((_, refl), ((_, refl), ((_, refl), ((_, refl), tt)))),
        (
          ((_, refl), tt),
          (
            (
              (_, refl),
              ((_, refl), ((_, refl), ((_, refl), ((_, refl), ((_, refl), ((_, refl), tt)))))),
            ),
            (((_, refl), tt), tt),
          ),
        ),
      ),
    ),
  )

  -- What a page has to show for a panel: what its builder returned, or an empty panel with the message of
  -- what it threw as its only warning.
  abbrev pub ShowsPanel : Window → Config → Text → Panel V (Row V) → Type 0
  ShowsPanel w c id panel =
      (build : Builder V) × (get id (panel_builders e conn) ≡ some build)
      × ((build w c ≡ ok panel)
          ⊎ ((message : Text) × (build w c ≡ err message)
              × (panel ≡ record {
                id = id;
                title = id;
                warnings = message ∷ [];
                stats = [];
                series = [];
                table = none;
                bars = none;
              })))

  abbrev pub ShowsAll : Window → Config → List Text → List (Panel V (Row V)) → Type 0
  ShowsAll w c [] [] = Unit
  ShowsAll w c [] (panel ∷ panels) = ⊥
  ShowsAll w c (id ∷ ids) [] = ⊥
  ShowsAll w c (id ∷ ids) (panel ∷ panels) = ShowsPanel w c id panel × ShowsAll w c ids panels

  -- The panels of a page that were begun before the time of the request was up.
  abbrev pub in_time : Request → List Text → List Text
  in_time r ids = if r.aborted_first then [] else begun r.aborted ids

  shows_result :
      (w : Window) (c : Config) (id : Text) (build : Builder V) (x : Result Text (Panel V (Row V)))
      → get id (panel_builders e conn) ≡ some build
      → build w c ≡ x
      → ShowsPanel w c id (panel_or_warning id x)
  unfolding panel_or_warning new_panel warn_panel
  shows_result w c id build (ok panel) f h = (build, f, inl h)
  shows_result w c id build (err message) f h = (build, f, inr (message, h, refl))

  build_each-ShowsAll :
      (aborted : Text → Bool) (w : Window) (c : Config) (ids : List Text)
      → All Known ids
      → ShowsAll w c (begun aborted ids) (build_each (panel_builders e conn) aborted w c ids)
  unfolding build_each
  build_each-ShowsAll aborted w c [] k = tt
  build_each-ShowsAll aborted w c (id ∷ ids) ((build, f), ks) = elim (Bool-cases (aborted id)) [
    | inl a ↦ rw (build_each, begun, f, a) (build_each-ShowsAll aborted w c ids ks)
    | inr a ↦
        rw (build_each, begun, f, a)
          (shows_result w c id build (build w c) f refl, build_each-ShowsAll aborted w c ids ks)
  ]

  build_panels-ShowsAll :
      (r : Request) (w : Window) (c : Config) (ids : List Text)
      → All Known ids
      → ShowsAll w c (in_time r ids) (build_panels (panel_builders e conn) r w c ids)
  unfolding build_panels
  build_panels-ShowsAll r w c ids k = elim (Bool-cases r.aborted_first) [
    | inl a ↦ rw a tt
    | inr a ↦ rw a (build_each-ShowsAll r.aborted w c ids k)
  ]

  -- A request for a page that there is, with a range, a period and a namespace that can be read, whose
  -- caller has not left, is answered, whatever the queries and the requests for metrics come to. The answer
  -- has, in the order of the page, one panel for each panel that was begun before the time of the request
  -- was up: the one that its builder returned, or one that has nothing but the message of what the
  -- builder threw as its warning.
  pub handle_page-answered :
      (now : ℤ) (c : Config) (r : Request) (ids : List Text) (w : Window) (rc : Config)
      → get r.id pages ≡ some ids
      → resolve_window now r.range r.period ≡ ok w
      → request_config c r.namespace ≡ ok rc
      → r.left ≡ false
      → (panels : List (Panel V (Row V))) × (handle_page e (ok conn) now c r
          ≡ answered (add_panels (new_payload w) panels))
        × ShowsAll w rc (in_time r ids) panels
  unfolding handle_page with_window finish
  handle_page-answered now c r ids w rc page window config stays =
      let panels : List (Panel V (Row V)) = build_panels (panel_builders e conn) r w rc ids in
      let passes : validate_payload (add_panels (new_payload w) panels) ≡ ok tt =
        validate_payload-add_panels w panels
          (resolve_window-IsValid now r.range r.period w window).0 (build_panels-Fits r w rc ids) in
      (
        panels,
        rw (handle_page, with_window, finish, page, window, config, stays, passes) refl,
        build_panels-ShowsAll r w rc ids
            (get-Values (λ l. All Known l) r.id ids pages pages-Known page),
      )

  length-build_each :
      (aborted : Text → Bool) (w : Window) (c : Config) (ids : List Text)
      → ((id : Text) → aborted id ≡ false)
      → All Known ids
      → length (build_each (panel_builders e conn) aborted w c ids) ≡ length ids
  unfolding build_each
  length-build_each aborted w c [] never k = refl
  length-build_each aborted w c (id ∷ ids) never ((build, f), ks) =
      rw (build_each, f, never id) (ap suc (length-build_each aborted w c ids never ks))

  -- A request for a page whose time is not up gets one panel for each panel of the page, also for those
  -- that fail.
  pub length-build_panels :
      (r : Request) (w : Window) (c : Config) (ids : List Text)
      → get r.id pages ≡ some ids
      → r.aborted_first ≡ false
      → ((id : Text) → r.aborted id ≡ false)
      → length (build_panels (panel_builders e conn) r w c ids) ≡ length ids
  unfolding build_panels
  length-build_panels r w c ids page begins never = rw begins (
      length-build_each r.aborted w c ids never
        (get-Values (λ l. All Known l) r.id ids pages pages-Known page))
