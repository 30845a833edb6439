-- ===== src/Pages/Namespaces/Rows.antt =====
-- webui/src/app/namespaces/page.tsx: the number of the rows that are made of an answer.
use kvrocks_controller.Common.{Bool, ap, false, true, List, [], length, refl, suc, ℕ, ◌∷◌, ◌≡◌}
use kvrocks_controller.Api.Calls.{Request, fetch_clusters}
use kvrocks_controller.Js.Value.{Result, Value, arr, items, str, ok, throw, to_text}
use kvrocks_controller.Pages.Effects.{length_of}
use kvrocks_controller.Pages.Namespaces.{
  Counters, NamespaceData, count_clusters, enter_namespace, gather, gather_namespaces, iterate,
  new_row, no_counters, push_row,
}

-- So many rows were made, if no exception came.
abbrev pub HasRows : ℕ → Result (List NamespaceData × Counters) → Type 0
HasRows n (ok (ds, c)) = length ds ≡ n
HasRows n (throw t) = Unit

-- `typeof v === "string"`
abbrev pub is_string : Value → Bool
is_string (str _) = true
is_string _ = false

push_row-HasRows :
    (n : ℕ) (d : NamespaceData) (found : Result (List NamespaceData × Counters))
    → HasRows n found
    → HasRows (suc n) (push_row d found)
unfolding push_row
push_row-HasRows n d (throw t) h = tt
push_row-HasRows n d (ok (ds, c)) h = ap suc h

module _ {W : Type 0} (axios : Request → W → Result Value × W) where
  gather_namespaces-HasRows :
      (nss : List Value) (c : Counters) (w : W)
      → HasRows (length nss) (gather_namespaces axios nss c w).0
  unfolding gather_namespaces
  gather_namespaces-HasRows [] c w = refl
  gather_namespaces-HasRows (ns ∷ nss) c w =
      split (gather_namespaces-HasRows nss) (iterate clusters)
    where
      clusters : Value
      clusters = (fetch_clusters axios (to_text ns) w).0

      w' : W
      w' = (fetch_clusters axios (to_text ns) w).1

      split :
          ((c' : Counters) (v : W) → HasRows (length nss) (gather_namespaces axios nss c' v).0)
          → (r : Result (List Value))
          → HasRows
              (length (ns ∷ nss))
              (elim r as (λ _. Result (List NamespaceData × Counters) × W) [
                | throw t ↦ (throw t, w')
                | ok cs ↦
                    let (c', w'') =
                      count_clusters axios
                        (to_text ns)
                        cs
                        (enter_namespace (length_of clusters) c)
                        w' in
                    let (found, w''') = gather_namespaces axios nss c' w'' in
                    (push_row (new_row (to_text ns) (length_of clusters) c') found, w''')
              ]).0
      split rest (throw t) = tt
      split rest (ok cs) =
          let (c', w'') =
            count_clusters axios (to_text ns) cs (enter_namespace (length_of clusters) c) w' in
          push_row-HasRows (length nss) _ (gather_namespaces axios nss c' w'').0 (rest c' w'')

  -- An answer that is no text, if it can be walked over, has a row for each of its items.
  pub gather-HasRows :
      (v : Value) (w : W) → is_string v ≡ false → HasRows (length_of v) (gather axios v w).0
  unfolding gather iterate length_of
  gather-HasRows (arr vs) w e = gather_namespaces-HasRows (items vs) no_counters w
  gather-HasRows (str s) w e = cc
  gather-HasRows _ w e = tt
