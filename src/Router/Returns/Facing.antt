-- ===== src/Router/Returns/Facing.antt =====
-- Which edges of the driven screen lead home, in plain terms.
use thekvm.Prelude.{
  ℕ, ◌≡◌, ◌≢◌, ◌↔◌, ◌⊎◌, refl, Bool, true, false, not, ◌&&◌, ◌||◌, Option, none, some, ◌==◌,
  is_some, inl, inr, arith, Bool-cases,
}
use mathlib.Core.Path.{subst}
use thekvm.Geometry.{
  Edge, left, right, top, bottom, edge_eq, EdgeMode, single, double, is_double, is_horizontal,
  DoubleEdgeStyle, mirror, fixed_left, fixed_right,
}
use thekvm.Layout.{neighbor_for_edge, single_peer_screen}
use thekvm.Router.{EdgeRouter}
use thekvm.Router.Home.{is_id}
use thekvm.Router.Drive.{fixed_return_edge, faces_home}

-- In a fixed style the one edge of that name; in mirror style the edges with the local screen behind
-- them and, with both edges open and a single peer, the left and the right edge.
abbrev pub LeadsBy : DoubleEdgeStyle → EdgeRouter → Edge → Type 0
LeadsBy fixed_left r edge = edge ≡ left
LeadsBy fixed_right r edge = edge ≡ right
LeadsBy mirror r edge =
    (neighbor_for_edge r.layout r.current_screen edge ≡ some r.local_screen)
    ⊎ ((r.edge_mode ≡ double)
        × ((edge ≡ left) ⊎ (edge ≡ right))
        × (r.current_screen ≢ r.local_screen)
        × (peer : ℕ) × (single_peer_screen r.layout ≡ some peer))

abbrev pub LeadsHome : EdgeRouter → Edge → Type 0
LeadsHome r edge = LeadsBy r.double_style r edge

edge_eq→eq : (d e : Edge) → edge_eq d e ≡ true → d ≡ e
edge_eq→eq left left h = refl
edge_eq→eq right right h = refl
edge_eq→eq top top h = refl
edge_eq→eq bottom bottom h = refl
edge_eq→eq _ _ h = cc

edge_eq_refl : (e : Edge) → edge_eq e e ≡ true
edge_eq_refl left = refl
edge_eq_refl right = refl
edge_eq_refl top = refl
edge_eq_refl bottom = refl

pub edge_eq_iff : (d e : Edge) → (edge_eq d e ≡ true) ↔ (d ≡ e)
edge_eq_iff d e = (edge_eq→eq d e, λ h. subst (λ x. edge_eq d x ≡ true) h (edge_eq_refl d))

is_id_iff : (o : Option ℕ) (i : ℕ) → (is_id o i ≡ true) ↔ (o ≡ some i)
is_id_iff none i = (λ h. cc, λ h. cc)
is_id_iff (some j) i = (λ h. ground arith, λ h. ground arith)

double_iff : (m : EdgeMode) → (is_double m ≡ true) ↔ (m ≡ double)
double_iff single = (λ h. cc, λ h. cc)
double_iff double = (λ h. refl, λ h. refl)

horizontal_iff : (e : Edge) → (is_horizontal e ≡ true) ↔ ((e ≡ left) ⊎ (e ≡ right))
horizontal_iff left = (λ h. inl refl, λ h. refl)
horizontal_iff right = (λ h. inr refl, λ h. refl)
horizontal_iff top = (λ h. cc, λ h. elim h [ inl e ↦ cc | inr e ↦ cc ])
horizontal_iff bottom = (λ h. cc, λ h. elim h [ inl e ↦ cc | inr e ↦ cc ])

some_iff : (o : Option ℕ) → (is_some o ≡ true) ↔ ((i : ℕ) × (o ≡ some i))
some_iff none = (λ h. cc, λ (i, e). cc)
some_iff (some i) = (λ h. (i, refl), λ h. refl)

abbrev facing : EdgeRouter → Edge → Bool
facing r edge =
    is_id (neighbor_for_edge r.layout r.current_screen edge) r.local_screen
    || (is_double r.edge_mode
        && is_horizontal edge
        && not (r.current_screen == r.local_screen)
        && is_some (single_peer_screen r.layout))

facing-leads : (r : EdgeRouter) (edge : Edge) → facing r edge ≡ true → LeadsBy mirror r edge
facing-leads r edge h =
    elim (Bool-cases (is_id (neighbor_for_edge r.layout r.current_screen edge) r.local_screen)) [
      | inl e ↦ inl ((is_id_iff _ r.local_screen).0 e)
      | inr e ↦
          let m : is_double r.edge_mode ≡ true = ground arith in
          let o : is_horizontal edge ≡ true = ground arith in
          let p : is_some (single_peer_screen r.layout) ≡ true = ground arith in
          let away : (r.current_screen == r.local_screen) ≡ false = ground arith in
          let (peer, q) = (some_iff (single_peer_screen r.layout)).0 p in
          inr
            ((double_iff r.edge_mode).0 m, (horizontal_iff edge).0 o, λ same. ground arith, peer, q)
    ]

leads-facing : (r : EdgeRouter) (edge : Edge) → LeadsBy mirror r edge → facing r edge ≡ true
leads-facing r edge (inl e) = rw ((is_id_iff _ r.local_screen).1 e) refl
leads-facing r edge (inr (m, o, away, peer, q)) =
    let m' = (double_iff r.edge_mode).1 m in
    let o' = (horizontal_iff edge).1 o in
    let p' = (some_iff (single_peer_screen r.layout)).1 (peer, q) in
    let away' : (r.current_screen == r.local_screen) ≡ false = ground arith in ground arith

leads_by :
    (d : DoubleEdgeStyle) (r : EdgeRouter) (edge : Edge)
    → ((elim (fixed_return_edge d) [ some fixed ↦ edge_eq edge fixed | none ↦ facing r edge ])
        ≡ true)
      ↔ LeadsBy d r edge
unfolding fixed_return_edge
leads_by mirror r edge = (facing-leads r edge, leads-facing r edge)
leads_by fixed_left r edge = edge_eq_iff edge left
leads_by fixed_right r edge = edge_eq_iff edge right

pub faces_home_iff : (r : EdgeRouter) (edge : Edge) → (faces_home r edge ≡ true) ↔ LeadsHome r edge
unfolding faces_home
faces_home_iff r edge = leads_by r.double_style r edge
