-- ===== src/Tests/RouterRuns.antt =====
-- Runs of the router on the concrete pair of screens.
use thekvm.Prelude.{◌≡◌, refl, inl, true, false, some, [], ◌∷◌, arith, find}
use thekvm.Prelude.Int.{ℤ, pos, negsuc, ◌+ℤ◌}
use thekvm.Geometry.{left, right, distance_from_edge}
use thekvm.Event.{mouse_move}
use thekvm.Layout.{screen, neighbor_for_edge}
use thekvm.Layout.Crossing.{crossing_target_for, EdgeHandoff, handoff_for_motion}
use thekvm.Router.{EdgeRouter, crossing_target, in_handoff_grace}
use thekvm.Router.Home.{restore_local_at_edge}
use thekvm.Router.Route.{route}
use thekvm.Router.Invariant.{Inv}
use thekvm.Router.Life.{born, next, routes, Life-Inv}
use thekvm.Router.Gates.{is_handoff, Crosses, handoff-Crosses}
use thekvm.Router.Push.Sustained.{press, outward_x, outward_y, press-handoff}
use thekvm.Router.Push.Track.{Moves, route-Moves}
use thekvm.Router.Agreement.{route-handoff_for_motion}
use thekvm.Router.Home.{landing_edge}
use thekvm.Router.Cross.{remainder}
use thekvm.Router.{handoff}
use thekvm.Geometry.{overflow_px}
use thekvm.Layout.{Screen}
use thekvm.Router.Returns.Ending.{EndsHome, return-EndsHome}
use thekvm.Router.Returns.Lingering.{moved, Lingers, return-Lingers_shut}
use thekvm.Tests.Data.{
  desk, laptop, pair, idle, pressing, driving, idle_new, pressing-Inv, driving-Inv,
}

Life-Inv_example : Inv (route 0 idle (mouse_move (pos 5) (pos 5))).0
Life-Inv_example =
    Life-Inv pair (route 0 idle (mouse_move (pos 5) (pos 5))).0
      (next (born idle idle_new) (routes 0 (mouse_move (pos 5) (pos 5)) (λ edge. inl (inl refl))))

handoff-Crosses_example : Crosses 0 pressing (mouse_move (pos 1) (pos 0))
unfolding route screen find ◌+ℤ◌ crossing_target crossing_target_for neighbor_for_edge
    distance_from_edge
handoff-Crosses_example = handoff-Crosses 0 pressing (mouse_move (pos 1) (pos 0)) refl

return-EndsHome_example : EndsHome 0 driving (mouse_move (negsuc 0) (pos 0))
unfolding route screen find ◌+ℤ◌ neighbor_for_edge in_handoff_grace
return-EndsHome_example = return-EndsHome 0 driving (mouse_move (negsuc 0) (pos 0)) driving-Inv refl

-- The drive of the runs in its first second.
abbrev fresh_drive : EdgeRouter
fresh_drive = record driving { handoff_grace = 1_000_000_000; handoff_at = some 0 }

-- Far from the border, in a run that is under way.
abbrev flung : EdgeRouter
flung = record idle { push_edge = some right; push_accum = 3 }

-- At the right border, with no push saved up.
abbrev at_border : EdgeRouter
at_border = record idle { cursor_x = 1919; local_cursor_x = 1919 }

press-handoff_example :
    is_handoff
      (route 8
        (press at_border right (1 ∷ (2 ∷ (3 ∷ (4 ∷ (5 ∷ (6 ∷ (7 ∷ []))))))))
        (mouse_move (outward_x right) (outward_y right))).1
    ≡ true
unfolding route screen find ◌+ℤ◌ crossing_target crossing_target_for neighbor_for_edge
    distance_from_edge
press-handoff_example =
    press-handoff at_border right desk laptop 2 (1 ∷ (2 ∷ (3 ∷ (4 ∷ (5 ∷ (6 ∷ (7 ∷ []))))))) 8
      (record {
        idle = refl;
        on_screen = refl;
        inside = (omega arith, omega arith);
        border = refl;
        unlocked = refl;
        gate_lifted = refl;
        no_refractory = refl;
        leads = refl;
        known = refl;
      })
      refl

-- At the right border of a locked screen.
abbrev locked_desk : EdgeRouter
locked_desk = record pressing { locked = true }

route-Moves_example :
    (ox : ℤ) × (oy : ℤ) × (mouse_move (pos 0) (pos 3) ≡ mouse_move ox oy)
    × Moves ox oy locked_desk (route 0 locked_desk (mouse_move (pos 50) (pos 3))).0
unfolding route screen find ◌+ℤ◌ crossing_target crossing_target_for neighbor_for_edge
    distance_from_edge
route-Moves_example =
    route-Moves 0 locked_desk (pos 50) (pos 3) desk (mouse_move (pos 0) (pos 3)) pressing-Inv refl
      refl (omega arith) (omega arith) refl

route-handoff_for_motion_example :
    (h : EdgeHandoff) × (s : Screen) × (handoff_for_motion pair 1 1919 540
        (pos 9)
        (pos 0)
        pressing.edge_mode
        pressing.double_style
      ≡ some h)
    × (screen pair 1 ≡ some s)
    × ((route 0 pressing (mouse_move (pos 9) (pos 0))).1
        ≡ handoff 1 h.target h.edge h.target_x h.target_y (
            remainder h.edge
              (overflow_px h.edge (pos 1919 +ℤ pos 9) (pos 540 +ℤ pos 0) s.width s.height)))
    × (h.from ≡ 1)
    × ((route 0 pressing (mouse_move (pos 9) (pos 0))).0.active_remote ≡ some h.target)
    × ((route 0 pressing (mouse_move (pos 9) (pos 0))).0.cursor_x ≡ h.target_x)
    × ((route 0 pressing (mouse_move (pos 9) (pos 0))).0.cursor_y ≡ h.target_y)
unfolding route screen find ◌+ℤ◌ crossing_target crossing_target_for neighbor_for_edge
    distance_from_edge
route-handoff_for_motion_example =
    route-handoff_for_motion 0 pressing (pos 9) (pos 0) pressing-Inv refl

-- Ten pixels inside after the return, then a push past the edge.
return-Lingers_shut_example :
    is_handoff
      (route 100_000_000
        (moved
          (route 7 driving (mouse_move (negsuc 0) (pos 0))).0
          ((50_000_000, negsuc 9, pos 0) ∷ []))
        (mouse_move (pos 2000) (pos 0))).1
    ≡ false
unfolding route screen find ◌+ℤ◌ neighbor_for_edge in_handoff_grace restore_local_at_edge moved
    Lingers distance_from_edge landing_edge
return-Lingers_shut_example =
    return-Lingers_shut 7 100_000_000 driving (mouse_move (negsuc 0) (pos 0)) 2 left (some left)
      true desk ((50_000_000, negsuc 9, pos 0) ∷ []) (pos 2000) (pos 0) driving-Inv refl refl
      ((refl, omega arith), tt) (omega arith) refl

-- The run against the left edge began 200 nanoseconds ago, and 100 are asked for.
abbrev held_drive : EdgeRouter
held_drive = record driving { return_hold = 100; return_run_since = some 5 }
