-- ===== src/Pages/Shard/Tests.antt =====
-- Runs of the page of one shard.
use kvrocks_controller.Common.{none, All, [], false, refl, true, ◌≡◌}
use kvrocks_controller.Api.Samples.{idle_shard, sample_node, sample_replica}
use kvrocks_controller.Js.Text.{codes}
use kvrocks_controller.Js.Value.{Items, arr, cons, get, get_opt, items, nil, ok, own_field}
use kvrocks_controller.Pages.Effects.{elements}
use kvrocks_controller.Pages.Shard.{
  Page, any_node, any_slave, has_replica_nodes, has_role, index_desc,
}
use kvrocks_controller.Pages.Shard.Laws.{IsMaster, IsUnindexed}

abbrev sample_page : Page
sample_page = record {
  nodes_data = idle_shard;
  loading = false;
  search_term = [];
  filter_option = any_node;
  sort_option = index_desc;
  failover_dialog_open = false;
  deleting_node_index = none;
  routes = [];
  alerts = [];
}

abbrev sample_nodes : Items
sample_nodes = cons sample_node (cons sample_replica nil)

replica_found : has_replica_nodes idle_shard ≡ ok true
unfolding has_replica_nodes elements any_slave has_role get get_opt own_field
replica_found = refl

sample_page-nodes : get_opt (codes "nodes") sample_page.nodes_data ≡ arr sample_nodes
unfolding get_opt own_field
sample_page-nodes = refl

sample_nodes-IsUnindexed : All IsUnindexed (items sample_nodes)
unfolding get_opt own_field
sample_nodes-IsUnindexed = (refl, (refl, tt))

sample_node-IsMaster : IsMaster sample_node
unfolding has_role get get_opt own_field
sample_node-IsMaster = refl

sample_replica-role : has_role (codes "master") sample_replica ≡ ok false
unfolding has_role get get_opt own_field
sample_replica-role = refl
