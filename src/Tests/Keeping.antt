-- ===== src/Tests/Keeping.antt =====
-- The session manager on two clusters that keep what they are sent.
use xr_telepresence_k8s.Base.{
  ◌≡◌, bytes_eq, List, none, some, [], true, false, refl, inl, inr, Bool-cases, ◌==◌,
}
use xr_telepresence_k8s.Base.Panic.{some_injective}
use xr_telepresence_k8s.Tests.Managing.{
  handler, south, demo_id, maybe_in_cluster, two_clusters, disconnected, two_clusters, demo_id,
  maybe_in_cluster, south,
}
use xr_telepresence_k8s.Manager.Clusters.{Clusters, Request, reply, status_ok, null}
use xr_telepresence_k8s.Manager.Clients.Members.{
  Keeping, clients_after, current, set_member, drop_member,
}
use xr_telepresence_k8s.Manager.Clients.{
  CreateClientBody, update_client, delete_client, create_client,
}
use xr_telepresence_k8s.Base.Text.{text, Bytes}
use xr_telepresence_k8s.Base.Dict.{lookup, NodupKeys}
use xr_telepresence_k8s.Manager.Clients.Patching.{answer}
use xr_telepresence_k8s.Resources.Session.{Session}
use xr_telepresence_k8s.Tests.Fixtures.{alice, spec-NodupKeys}
use xr_telepresence_k8s.Effect.{ok}
use xr_telepresence_k8s.Manager.Clients.Refinement.{
  Becomes, update_client-Refines, delete_client-Refines, create_client-Refines,
}

abbrev keeping_clusters : Clusters
keeping_clusters = record two_clusters {
  session = λ h cluster id. answer (current id maybe_in_cluster h cluster);
  write = λ h r. none;
}

two_clusters-Keeping : Keeping demo_id maybe_in_cluster keeping_clusters
two_clusters-Keeping = record {
  answers = λ h cluster. refl;
  accepts = λ h r. refl;
  named = λ cluster e. named cluster e;
  unique = λ cluster e. unique cluster e;
}
  where
    named : (cluster : Bytes) {x : Session} → maybe_in_cluster cluster ≡ some x → x.name ≡ demo_id
    named cluster e = elim (Bool-cases (cluster == south)) [
      | inl b ↦ rw (← some_injective (rw b at e)) refl
      | inr b ↦ rw (← some_injective (rw b at e)) refl
    ]

    unique :
        (cluster : Bytes) {x : Session}
        → maybe_in_cluster cluster ≡ some x
        → NodupKeys x.spec.clients
    unique cluster e = elim (Bool-cases (cluster == south)) [
      | inl b ↦ rw (← some_injective (rw b at e)) spec-NodupKeys
      | inr b ↦ rw (← some_injective (rw b at e)) tt
    ]

abbrev pub dave : CreateClientBody
dave = record { client_id = text "dave"; cluster = south }

update_client-Refines_example :
    (h' : List Request) × (update_client handler demo_id alice (ok disconnected) keeping_clusters []
      ≡ (ok (reply status_ok null), h'))
    × Becomes demo_id maybe_in_cluster two_clusters-Keeping [] h' south (set_member alice false)
unfolding bytes_eq lookup clients_after
update_client-Refines_example =
    update_client-Refines demo_id maybe_in_cluster two_clusters-Keeping handler alice disconnected
      [] refl

delete_client-Refines_example :
    (h' : List Request) × (delete_client handler demo_id alice keeping_clusters []
      ≡ (ok (reply status_ok null), h'))
    × Becomes demo_id maybe_in_cluster two_clusters-Keeping [] h' south (drop_member alice)
unfolding bytes_eq lookup clients_after
delete_client-Refines_example =
    delete_client-Refines demo_id maybe_in_cluster two_clusters-Keeping handler alice [] refl

create_client-Refines_example :
    (h' : List Request) × (create_client handler demo_id (ok dave) keeping_clusters []
      ≡ (ok (reply status_ok null), h'))
    × Becomes demo_id maybe_in_cluster two_clusters-Keeping [] h' south
        (set_member (text "dave") true)
unfolding bytes_eq lookup clients_after
create_client-Refines_example =
    create_client-Refines demo_id maybe_in_cluster two_clusters-Keeping handler dave [] refl refl
      refl
