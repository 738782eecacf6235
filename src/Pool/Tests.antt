-- ===== src/Pool/Tests.antt =====
-- A server that is reached at the third attempt.
use ya_lyceum_go_project_fin.Prelude.{String, ◌≡◌, ◌↔◌, refl, ltb, none, some, if◌then◌else◌}
use ya_lyceum_go_project_fin.Errors.{new, ok}
use ya_lyceum_go_project_fin.Grpc.Sample.{sample_rpc}
use ya_lyceum_go_project_fin.Float64.{pos}
use ya_lyceum_go_project_fin.Pool.{Pgxpool, IsReached, ping_loop, new_pool, new_pool_iff}

abbrev slow_server : Pgxpool String
slow_server = record {
  parse_config = λ dsn. ok dsn;
  new_with_config = λ config n. ok tt;
  ping = λ k. if ltb k 3 then some (new "connection refused") else none;
  wait = λ k. none;
}

reached : (new_pool sample_rpc slow_server "postgres://" (pos 4)).answer ≡ ok tt
unfolding new_pool ping_loop
reached = refl

new_pool_iff_example :
    ((new_pool sample_rpc slow_server "postgres://" (pos 4)).answer ≡ ok tt)
    ↔ IsReached sample_rpc slow_server 5 1
new_pool_iff_example =
    new_pool_iff sample_rpc slow_server "postgres://" (pos 4) "postgres://" refl refl
