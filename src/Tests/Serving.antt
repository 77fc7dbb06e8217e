-- ===== src/Tests/Serving.antt =====
-- Plugins, routes and bodies of requests: the theorems at concrete values.
use blue_workspace_build.Base.{
  ℕ, ◌+◌, ◌≡◌, refl, true, false, some, List, [], ◌∷◌, ◌++◌, map, codes,
}
use blue_workspace_build.Base.Map
use blue_workspace_build.Base.Map.{nat_key}
use blue_workspace_build.Http.{
  ApiType, ApiHandler, BasePlugin, Piece, Service, register_plugin, add_handlers, add_api_handlers,
  on_get, end_body, on_data, receive,
}
use blue_workspace_build.Http.Bodies.{body_of, answers_of, receive-body_of}

-- A handler that answers a body with itself and counts its runs.
abbrev echo : ApiHandler ℕ
echo = record { api_type = ApiType.post_api; run = λ body result runs. some (true, body, runs + 1) }

abbrev query : ApiHandler ℕ
query = record { api_type = ApiType.get_api; run = λ body result runs. some (false, result, runs) }

abbrev scalar_plugin : BasePlugin ℕ
scalar_plugin = record {
  name = codes "Scalar";
  handlers = (codes "echo", echo) ∷ (codes "query", query) ∷ [];
}

-- A second plugin under the name is not registered.
routes_of_name :
    map
      (λ r. r.path)
      (add_api_handlers (
        register_plugin
          (record scalar_plugin { handlers = [] })
          (register_plugin scalar_plugin [])))
    ≡ codes "/Scalar/echo" ∷ codes "/Scalar/query" ∷ []
unfolding register_plugin add_api_handlers add_handlers
routes_of_name = refl

get_result : on_get echo (codes "a=1") 4 ≡ some (codes "a=1", 5)
unfolding on_get
get_result = refl

abbrev idle : Service ℕ
idle = record { buffers = []; answers = []; state = 0 }

-- The pieces of two requests, one of which ends before the other.
abbrev pieces : List Piece
pieces =
    record { request = 0; content = codes "ab"; is_end = false }
    ∷ record { request = 1; content = codes "xy"; is_end = true }
    ∷ record { request = 0; content = codes "c"; is_end = false }
    ∷ []

abbrev after_pieces : Service ℕ
after_pieces = record {
  buffers = (0, codes "abc") ∷ (1, codes "xy") ∷ [];
  answers = (1, codes "xy") ∷ [];
  state = 1;
}

receive-pieces : receive (λ r. echo) pieces idle ≡ some after_pieces
unfolding receive on_data end_body Map.get_or Map.get Map.put
receive-pieces = refl

receive-body_of_example :
    (answers_of 0 after_pieces.answers ≡ answers_of 0 idle.answers)
    × (receive
          (λ r. echo)
          (pieces ++ record { request = 0; content = codes "d"; is_end = true } ∷ [])
          idle
        ≡ end_body echo 0 (body_of 0 pieces ++ codes "d") (record after_pieces {
          buffers = Map.put 0 (body_of 0 pieces ++ codes "d") after_pieces.buffers;
        }))
unfolding Map.get_or Map.get
receive-body_of_example =
    receive-body_of (λ r. echo) pieces 0 (codes "d") idle after_pieces refl
      (refl, (refl, (refl, tt))) receive-pieces
