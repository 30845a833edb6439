-- ===== src/Sidebar/Width.antt =====
-- webui/src/app/ui/sidebar.tsx: the width of a sidebar on a narrow window.
use kvrocks_controller.Common.{arith, if◌then◌else◌, true, ℕ, ◌<◌, ◌≡◌, ◌≤◌}
use kvrocks_controller.Sidebar.{Sidebar, check_mobile, toggle_sidebar}

-- An open sidebar is as wide as its content, a closed one has no width.
abbrev pub FitsWhenToggled {ℓ} : {A : Type ℓ} → Sidebar A → Type 0
FitsWhenToggled s = s.sidebar_width ≡ (if s.is_open then 260 else 0)

-- On a narrow window, toggling a sidebar makes its width fit, and toggling one that fits twice gives
-- it back.
pub toggle_sidebar_lem :
    {A : Type 0} (s : Sidebar A)
    → s.is_mobile ≡ true
    → FitsWhenToggled s
    → FitsWhenToggled (toggle_sidebar s) × (toggle_sidebar (toggle_sidebar s) ≡ s)
unfolding toggle_sidebar
toggle_sidebar_lem s h k = (ground arith, ground arith)

-- A sidebar that is closed on a narrow window, opened on a wide one and then shown on a narrow one
-- again is open and has no width.
pub open_without_width :
    {A : Type 0} (s : Sidebar A) (narrow wide : ℕ)
    → s.is_open ≡ true
    → narrow < 768
    → 768 ≤ wide
    → let closed = toggle_sidebar (check_mobile narrow s) in
      let reopened = check_mobile narrow (toggle_sidebar (check_mobile wide closed)) in
      (reopened.is_open ≡ true) × (reopened.is_mobile ≡ true) × (reopened.sidebar_width ≡ 0)
unfolding toggle_sidebar check_mobile
open_without_width s narrow wide h k l = ground arith
