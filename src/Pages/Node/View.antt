-- ===== src/Pages/Node/View.antt =====
-- webui/src/app/namespaces/[namespace]/clusters/[cluster]/shards/[shard]/nodes/[node]/page.tsx: what
-- the page of one node renders.
use kvrocks_controller.Common.{Bool, List, [], false, if◌then◌else◌, none, not, some, ◌++◌, ◌∷◌}
use kvrocks_controller.Common.Int.{pos, ◌+ℤ◌}
use kvrocks_controller.Js.Decimal.{show_ℤ}
use kvrocks_controller.Js.Number.{int, nan, parse_int}
use kvrocks_controller.Js.Text.{Text, codes, same}
use kvrocks_controller.Js.Value.{Value, get_opt, str, truthy}
use kvrocks_controller.Pages.Node.{Page, current_node, get_role_styles}
use kvrocks_controller.Ui.{Shown, alert, button, child, icon, text}
use kvrocks_controller.Ui.Parts.{show_if}

-- The value that a button copies, and the kind of it.
pub data Action : Type 0 where
  copy : Value → Text → Action

-- `parseInt(t) + 1`
unfoldable pub next_number : Text → Text
next_number t = elim (parse_int t) [ nan ↦ codes "NaN" | int z ↦ show_ℤ (z +ℤ pos 1) ]

-- `copied === kind`
unfoldable pub is_copied : Page → Text → Bool
is_copied p kind = elim p.copied [ none ↦ false | some k ↦ same k kind ]

unfoldable pub copy_button : Page → Text → Value → Text → Text → List (Shown Action)
copy_button p title value kind mark =
    button title false (copy value kind)
    ∷ icon (if is_copied p kind then codes "CheckCircleIcon" else mark)
    ∷ []

module _ (locale_date : Value → Text) where
  unfoldable pub heading_view : Text → Text → Text → Text → Value → List (Shown Action)
  heading_view namespace cluster shard node v =
      let role = get_opt (codes "role") v in
      icon (codes "DeviceHubIcon")
      ∷ text (codes "Node " ++ next_number node)
      ∷ icon (get_role_styles role).mark
      ∷ child role
      ∷ text (
          codes "Shard "
          ++ next_number shard
          ++ codes " • "
          ++ cluster
          ++ codes " cluster • "
          ++ namespace
          ++ codes " namespace")
      ∷ []

  unfoldable pub address_view : Page → Value → List (Shown Action)
  address_view p v =
      let id = get_opt (codes "id") v in
      let addr = get_opt (codes "addr") v in
      (icon (codes "LinkIcon") ∷ text (codes "Node ID") ∷ child id ∷ [])
      ++ copy_button p (codes "Copy ID") id (codes "id") (codes "ContentCopyIcon")
      ++ (icon (codes "NetworkCheckIcon") ∷ text (codes "Address") ∷ child addr ∷ [])
      ++ copy_button p (codes "Copy Address") addr (codes "addr") (codes "ContentCopyIcon")

  -- Inside `currentNode.password && (…)`.
  unfoldable pub password_view : Page → Value → List (Shown Action)
  password_view p v =
      let password = get_opt (codes "password") v in
      show_if (truthy password) (
        icon (codes "SecurityIcon")
        ∷ text (codes "Authentication")
        ∷ text (if truthy password then codes "••••••••" else codes "No password set")
        ∷ button (codes "Copy Password") (not (truthy password)) (copy password (codes "pwd"))
        ∷ icon (if is_copied p (codes "pwd") then codes "CheckCircleIcon" else codes "LockIcon")
        ∷ [])

  unfoldable pub role_view : Page → Value → List (Shown Action)
  role_view p v =
      let role = get_opt (codes "role") v in
      (icon (codes "DeviceHubIcon")
        ∷ text (codes "Role")
        ∷ icon (get_role_styles role).mark
        ∷ child role
        ∷ icon (codes "AccessTimeIcon")
        ∷ text (codes "Created At")
        ∷ text (locale_date (get_opt (codes "created_at") v))
        ∷ [])
      ++ password_view p v

  unfoldable pub shard_view : Text → Text → Text → List (Shown Action)
  shard_view namespace cluster shard =
      icon (codes "DnsIcon")
      ∷ text (codes "Shard Information")
      ∷ icon (codes "DnsIcon")
      ∷ text (codes "Shard")
      ∷ text (codes "Shard " ++ next_number shard)
      ∷ icon (codes "StorageIcon")
      ∷ text (codes "Cluster")
      ∷ text cluster
      ∷ icon (codes "InfoIcon")
      ∷ text (codes "Namespace")
      ∷ text namespace
      ∷ []

  unfoldable pub node_view : Text → Text → Text → Text → Page → Value → List (Shown Action)
  node_view namespace cluster shard node p v =
      heading_view namespace cluster shard node v
      ++ (icon (codes "SettingsIcon") ∷ text (codes "Node Configuration") ∷ [])
      ++ address_view p v
      ++ role_view p v
      ++ shard_view namespace cluster shard

  unfoldable pub page_view : Text → Text → Text → Text → Page → List (Shown Action)
  page_view namespace cluster shard node p =
      let v = current_node node p in
      if p.loading
      then icon (codes "LoadingSpinner") ∷ []
      else icon (codes "NodeSidebar")
        ∷ (if not (truthy v)
            then alert (codes "error") (str (codes "Node not found")) ∷ []
            else node_view namespace cluster shard node p v)
