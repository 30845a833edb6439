-- ===== src/Pages/Node.antt =====
-- webui/src/app/namespaces/[namespace]/clusters/[cluster]/shards/[shard]/nodes/[node]/page.tsx: the
-- page of one node. `new Date(t * 1000).toLocaleString()` is the parameter `locale_date` of the view.
pub mod View
pub mod Laws
mod Tests
use kvrocks_controller.Common.{
  Bool, List, Option, [], false, get_elem?, if◌then◌else◌, none, some, ℕ, ◌++◌, ◌+◌, ◌-◌, ◌==◌, ◌∷◌,
}
use kvrocks_controller.Api.Calls.{Request, list_nodes}
use kvrocks_controller.Common.Int.{pos}
use kvrocks_controller.Js.Number.{Num, int, parse_int}
use kvrocks_controller.Js.Text.{Text, codes}
use kvrocks_controller.Js.Value.{Result, Value, arr, is_text, items, truthy, undefined}

pub record Page : Type 0 where
  pub node_data : Value
  pub loading : Bool
  pub copied : Option Text
  pub routes : List Text
  -- what is written to the clipboard, in its order, and the timers of `setTimeout` that run
  pub clipboard : List Value
  pub timers : ℕ

module _ {W : Type 0} (axios : Request → W → Result Value × W)
    (namespace cluster shard : Text) where
  unfoldable pub fetch_data : Page → W → Page × W
  fetch_data p w =
      let (fetched, w') = list_nodes axios namespace cluster shard w in
      let found = record p { node_data = fetched; loading = false } in
      let missing = record p { routes = p.routes ++ codes "/404" ∷ []; loading = false } in
      (if truthy fetched then found else missing, w')

-- `values[n]` of an array
unfoldable pub item_at : Value → Num → Value
item_at (arr vs) (int (pos i)) = elim (get_elem? (items vs) i) [ none ↦ undefined | some v ↦ v ]
item_at v n = undefined

-- `nodeData[parseInt(node)]`
unfoldable pub current_node : Text → Page → Value
current_node node p = item_at p.node_data (parse_int node)

pub record RoleStyles : Type 0 where
  pub color : Text
  pub text_class : Text
  pub mark : Text
  pub bg_class : Text
  pub border_class : Text
  pub text_color : Text

unfoldable pub get_role_styles : Value → RoleStyles
get_role_styles role =
    if is_text (codes "master") role
    then record {
      color = codes "success";
      text_class = codes "text-success font-medium";
      mark = codes "CheckCircleIcon";
      bg_class = codes "bg-green-50 dark:bg-green-900/30";
      border_class = codes "border-green-200 dark:border-green-800";
      text_color = codes "text-green-700 dark:text-green-300";
    }
    else record {
      color = codes "info";
      text_class = codes "text-info font-medium";
      mark = codes "DeviceHubIcon";
      bg_class = codes "bg-blue-50 dark:bg-blue-900/30";
      border_class = codes "border-blue-200 dark:border-blue-800";
      text_color = codes "text-blue-700 dark:text-blue-300";
    }

unfoldable pub copy_to_clipboard : Value → Text → Page → Page
copy_to_clipboard value kind p = record p {
  clipboard = p.clipboard ++ value ∷ [];
  copied = some kind;
  timers = p.timers + 1;
}

-- A timer of `setTimeout(() => setCopied(null), 2000)` runs out, if there is one.
unfoldable pub time_out : Page → Page
time_out p = if p.timers == 0 then p else record p { copied = none; timers = p.timers - 1 }
