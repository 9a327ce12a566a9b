-- ===== src/Daemon/Config/Managers.antt =====
-- The managers of clusters whose names differ.
use nebula_gc.Prelude.{
  String, inl, inr, ◌≡◌, refl, sym, ap, subst, ◌∙◌, ◌≢◌, Bool, true, false, some, List, [], ◌∷◌,
  ◌++◌, map, arith, str_eq, eq_iff, eq_refl, All, All-append,
}
use nebula_gc.Errors.{Result, ok, err, failed, Result-cases}
use nebula_gc.Sql.{find, delete}
use nebula_gc.Sql.Unique.{Unique, Absent}
use nebula_gc.Daemon.Config.{
  ClusterConfig, DaemonConfig, Client, Manager, has_name, client_of, manager_of, make_clients,
  make_managers, with_clients, with_config, new_manager, Checks, checked, validate, validate_urls,
  load_config,
}

module _ {A B : Type 0} (key : A → String) (make : B → A) where
  -- A map that is filled by a loop
  abbrev put_all : List A → List B → List A
  put_all made [] = made
  put_all made (b ∷ bs) =
      put_all (delete (λ a. str_eq (key a) (key (make b))) made ++ make b ∷ []) bs

  delete-Absent :
      (k : String) (rs : List A) → Absent key k rs → delete (λ a. str_eq (key a) k) rs ≡ rs
  unfolding delete
  delete-Absent k [] h = refl
  delete-Absent k (a ∷ rs) h = ground (arith, h.0, delete-Absent k rs h.1)

  Absent-append :
      (made : List A) (b : B) (bs : List B)
      → Absent (λ x. key (make x)) (key (make b)) bs
      → All (λ x. Absent key (key (make x)) made) bs
      → All (λ x. Absent key (key (make x)) (made ++ make b ∷ [])) bs
  Absent-append made b [] a h = tt
  Absent-append made b (x ∷ xs) a h =
      let apart = a.0 in
      (
        All-append (λ q. str_eq (key q) (key (make x)) ≡ false) made (make b ∷ []) h.0
            (
              ground (
                arith,
                apart,
                eq_iff (key (make b)) (key (make x)),
                eq_iff (key (make x)) (key (make b)),
              ),
              tt,
            ),
        Absent-append made b xs a.1 h.1,
      )

  append_assoc : (xs : List A) (y : A) (ys : List A) → (xs ++ y ∷ []) ++ ys ≡ xs ++ y ∷ ys
  append_assoc [] y ys = refl
  append_assoc (x ∷ xs) y ys = ap (λ l. x ∷ l) (append_assoc xs y ys)

  append_nil : (xs : List A) → xs ++ [] ≡ xs
  append_nil [] = refl
  append_nil (x ∷ xs) = ap (λ l. x ∷ l) (append_nil xs)

  put_all-append :
      (made : List A) (bs : List B)
      → Unique (λ x. key (make x)) bs
      → All (λ x. Absent key (key (make x)) made) bs
      → put_all made bs ≡ made ++ map make bs
  put_all-append made [] u h = sym (append_nil made)
  put_all-append made (b ∷ bs) u h =
      ap (λ l. put_all (l ++ make b ∷ []) bs) (delete-Absent (key (make b)) made h.0)
      ∙ put_all-append (made ++ make b ∷ []) bs u.1 (Absent-append made b bs u.0 h.1)
      ∙ append_assoc made (make b) (map make bs)

  nothing_made : (bs : List B) → All (λ x. Absent key (key (make x)) []) bs
  nothing_made [] = tt
  nothing_made (b ∷ bs) = (tt, nothing_made bs)

  -- Each is found under its key.
  find-map :
      (bs : List B)
      → Unique (λ x. key (make x)) bs
      → All (λ x. find (λ a. str_eq (key a) (key (make x))) (map make bs) ≡ some (make x)) bs
  unfolding find
  find-map [] u = tt
  find-map (b ∷ bs) u = (ground (arith, eq_refl (key (make b))), later bs u.0 (find-map bs u.1))
    where
      later :
          (xs : List B)
          → Absent (λ x. key (make x)) (key (make b)) xs
          → All (λ x. find (λ a. str_eq (key a) (key (make x))) (map make bs) ≡ some (make x)) xs
          → All
              (λ x. find (λ a. str_eq (key a) (key (make x))) (map make (b ∷ bs)) ≡ some (make x))
              xs
      later [] a h = tt
      later (x ∷ xs) a h =
          let apart = a.0 in
          (
            ground (
              arith,
              apart,
              h.0,
              eq_iff (key (make b)) (key (make x)),
              eq_iff (key (make x)) (key (make b)),
            ),
            later xs a.1 h.1,
          )

abbrev pub own_client : ClusterConfig → Client
own_client c = record { name = c.name; made_with = c }

-- A manager with the configuration and the client of its own cluster
abbrev pub own_manager : ClusterConfig → Manager
own_manager c = record { name = c.name; config = some c; client = some (own_client c) }

-- What NewManager returns, by the result of Validate
abbrev pub own_managers : List ClusterConfig → Result (Unit {0}) → Result (List Manager)
own_managers cs (ok u) = ok (map own_manager cs)
own_managers cs (err e) = err (failed "failed to initialize daemon")

module _ (connects : ClusterConfig → Bool) where
  make_clients-put_all :
      (made : List Client) (cs : List ClusterConfig)
      → All (λ c. connects c ≡ true) cs
      → make_clients connects made cs ≡ ok (put_all (λ (c : Client). c.name) own_client made cs)
  unfolding make_clients
  make_clients-put_all made [] h = refl
  make_clients-put_all made (c ∷ cs) h =
      rw h.0 (make_clients-put_all (delete (client_of c.name) made ++ own_client c ∷ []) cs h.1)

  make_managers-put_all :
      (clusters : List ClusterConfig) (clients : List Client) (made : List Manager)
      (cs : List ClusterConfig)
      → All
          (λ c.
            (find (has_name c.name) clusters ≡ some c)
            × (find (client_of c.name) clients ≡ some (own_client c)))
          cs
      → make_managers connects clusters clients made cs
        ≡ put_all (λ (m : Manager). m.name) own_manager made cs
  unfolding make_managers
  make_managers-put_all clusters clients made [] h = refl
  make_managers-put_all clusters clients made (c ∷ cs) h =
      let (config, client) = h.0 in
      ap
        (λ (m : Manager).
          make_managers connects clusters clients (delete (manager_of c.name) made ++ m ∷ []) cs)
        (let same : record {
          name = c.name;
          config = find (has_name c.name) clusters;
          client = find (client_of c.name) clients;
        }
              ≡ own_manager c =
            rw (config, client) refl in
          same)
      ∙ make_managers-put_all clusters clients
          (delete (manager_of c.name) made ++ own_manager c ∷ []) cs h.1

  both :
      (clusters : List ClusterConfig) (clients : List Client) (cs : List ClusterConfig)
      → All (λ c. find (has_name c.name) clusters ≡ some c) cs
      → All (λ c. find (client_of c.name) clients ≡ some (own_client c)) cs
      → All
          (λ c.
            (find (has_name c.name) clusters ≡ some c)
            × (find (client_of c.name) clients ≡ some (own_client c)))
          cs
  both clusters clients [] g h = tt
  both clusters clients (c ∷ cs) g h = ((g.0, h.0), both clusters clients cs g.1 h.1)

  no_clusters :
      (checks : Checks) (urls : List String)
      → validate_urls checks urls (err (failed "clusters cannot be empty")) ≢ ok tt
  unfolding validate_urls
  no_clusters checks [] e = absurd (cc)
  no_clusters checks (url ∷ urls) e = ground (arith, no_clusters checks urls, e)

  refused :
      (checks : Checks) (urls : List String)
      → validate checks (record { control_plane_urls = urls; clusters = [] }) ≢ ok tt
  unfolding validate
  refused checks urls e = ground (arith, no_clusters checks urls, e)

  refused-empty :
      (checks : Checks) (config : DaemonConfig)
      → new_manager checks connects (ok (record config { clusters = [] }))
        ≡ err (failed "failed to initialize daemon")
  unfolding new_manager load_config
  refused-empty checks config =
      let empty : DaemonConfig = record config { clusters = [] } in
      elim (Result-cases (validate checks empty)) [
        | inl (tt, e) ↦ absurd (refused checks config.control_plane_urls e)
        | inr (x, e) ↦ ap (λ r. with_config connects (checked checks empty r)) e
      ]

  map-same : (cs : List ClusterConfig) → map (λ (c : ClusterConfig). c) cs ≡ cs
  map-same [] = refl
  map-same (c ∷ cs) = ap (λ l. c ∷ l) (map-same cs)

  -- If the names of the clusters in the file differ and sdk.NewClient accepts each of them,
  -- NewManager makes one manager for each, in their order, with the cluster's own configuration and
  -- own client, where Validate accepts the file's configuration, and fails where it does not, as it
  -- does without any cluster.
  pub new_manager-own :
      (checks : Checks) (config : DaemonConfig)
      → Unique (λ (c : ClusterConfig). c.name) config.clusters
      → All (λ c. connects c ≡ true) config.clusters
      → (new_manager checks connects (ok config)
          ≡ own_managers config.clusters (validate checks config))
        × (new_manager checks connects (ok (record config { clusters = [] }))
            ≡ err (failed "failed to initialize daemon"))
  unfolding new_manager load_config
  new_manager-own checks config u h =
      let cs = config.clusters in
      let clients : make_clients connects [] cs ≡ ok (map own_client cs) =
        make_clients-put_all [] cs h
        ∙ ap ok (
            put_all-append (λ (c : Client). c.name) own_client [] cs u
              (nothing_made (λ (c : Client). c.name) own_client cs)) in
      let configs : All (λ c. find (has_name c.name) cs ≡ some c) cs =
        subst (λ l. All (λ (c : ClusterConfig). find (has_name c.name) l ≡ some c) cs) (map-same cs)
          (find-map (λ (c : ClusterConfig). c.name) (λ (c : ClusterConfig). c) cs u) in
      let made : with_clients connects config (make_clients connects [] cs)
          ≡ ok (map own_manager cs) =
        ap (with_clients connects config) clients
        ∙ ap ok (
            make_managers-put_all cs (map own_client cs) [] cs (
              both cs (map own_client cs) cs configs
                (find-map (λ (c : Client). c.name) own_client cs u))
            ∙ put_all-append (λ (m : Manager). m.name) own_manager [] cs u
                (nothing_made (λ (m : Manager). m.name) own_manager cs)) in
      (by_validation (validate checks config) made, refused-empty checks config)
    where
      by_validation :
          (r : Result (Unit {0}))
          → with_clients connects config (make_clients connects [] config.clusters)
            ≡ ok (map own_manager config.clusters)
          → with_config connects (checked checks config r) ≡ own_managers config.clusters r
      by_validation (ok u) made = made
      by_validation (err e) made = refl
