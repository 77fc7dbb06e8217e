-- ===== src/Http.antt =====
-- The plugins and their routes: plugin_core/src/PluginsManager.cpp, plugin_core/include/ApiHandler.h,
-- plugin_core/include/BasePlugin.h and tools/httpServer/HttpServer.cpp. The web server, uWS, is
-- outside: a route is what the source registers with it, and the pieces of the bodies arrive in any
-- sequence of its calls. The state behind the handlers is a parameter.
pub mod Bodies
use blue_workspace_build.Base.{
  ℕ, Bool, true, false, Option, none, some, List, [], ◌∷◌, ◌++◌, if◌then◌else◌, Text, codes,
  text_eq, text_lt,
}
use blue_workspace_build.Json.{◌>>=◌}
use blue_workspace_build.Base.Map
use blue_workspace_build.Base.Map.{Map, nat_key}

-- enum class API_TYPE.
pub data ApiType : Type 0 where
  get_api : ApiType
  post_api : ApiType

-- class ApiHandler: `run` gets the data and the result that it changes; `none` is an exception.
pub record ApiHandler (S : Type 0) : Type 0 where
  pub api_type : ApiType
  pub run : Text → Text → S → Option (Bool × Text × S)

-- class BasePlugin, with the map of `GetAllHandlers`.
pub record BasePlugin (S : Type 0) : Type 0 where
  pub name : Text
  pub handlers : List (Text × ApiHandler S)

-- What `wsApp->get` and `wsApp->post` are given.
pub record Route (S : Type 0) : Type 0 where
  pub api_type : ApiType
  pub path : Text
  pub handler : ApiHandler S

-- A piece of the body of a request, as `onData` is called with it.
pub record Piece : Type 0 where
  pub request : ℕ
  pub content : Text
  pub is_end : Bool

-- The requests that are being received: the `bodyBuffer` of each, and what was answered, in order.
pub record Service (S : Type 0) : Type 0 where
  pub buffers : Map ℕ Text
  pub answers : List (ℕ × Text)
  pub state : S

-- GetBasicResult.
abbrev pub basic_result : Text
basic_result = codes "{\"body\":{}, \"msg\":\"\", \"errCode\":0, \"result\":true}"

module _ {S : Type 0} where
  -- RegisterPlugin: `emplace` into a `std::map`, which keeps its keys in order.
  unfoldable pub register_plugin : BasePlugin S → Map Text (BasePlugin S) → Map Text (BasePlugin S)
  register_plugin p [] = (p.name, p) ∷ []
  register_plugin p ((n, q) ∷ plugins) =
      let rest = register_plugin p plugins in
      if text_eq p.name n
      then (n, q) ∷ plugins
      else if text_lt p.name n
      then (p.name, p) ∷ (n, q) ∷ plugins
      else (n, q) ∷ rest

  -- The inner loop of `AddApiHandlers`, with the paths of its two branches.
  unfoldable pub add_handlers : Text → List (Text × ApiHandler S) → List (Route S)
  add_handlers name [] = []
  add_handlers name ((key, handler) ∷ handlers) =
      record {
        api_type = handler.api_type;
        path = codes "/" ++ name ++ codes "/" ++ key;
        handler = handler;
      }
      ∷ add_handlers name handlers

  -- AddApiHandlers, behind the route "test".
  unfoldable pub add_api_handlers : Map Text (BasePlugin S) → List (Route S)
  unfolding add_handlers
  add_api_handlers [] = []
  add_api_handlers ((name, plugin) ∷ plugins) =
      add_handlers name plugin.handlers ++ add_api_handlers plugins

  -- The function that `AddGetHandler` registers; the value of `run` is not used.
  unfoldable pub on_get : ApiHandler S → Text → S → Option (Text × S)
  on_get handler query s = do (_, result, t) ← handler.run query basic_result s; some (result, t)

  -- What is done with a whole body; the value of `run` is not used here either.
  unfoldable pub end_body : ApiHandler S → ℕ → Text → Service S → Option (Service S)
  end_body handler request body v = do
    (_, result, t) ← handler.run body basic_result v.state
    some (record v { answers = v.answers ++ (request, result) ∷ []; state = t })

  module _ (handler_of : ℕ → ApiHandler S) where
    -- The function that `AddPostHandler` gives to `onData`; `handler_of` is the handler of the route
    -- of a request.
    unfoldable pub on_data : Piece → Service S → Option (Service S)
    unfolding end_body Map.put Map.get_or
    on_data p v =
        let body = Map.get_or [] p.request v.buffers ++ p.content in
        let w = record v { buffers = Map.put p.request body v.buffers } in
        if p.is_end then end_body (handler_of p.request) p.request body w else some w

    -- The calls of `onData`, in their order.
    unfoldable pub receive : List Piece → Service S → Option (Service S)
    unfolding on_data
    receive [] v = some v
    receive (p ∷ ps) v = do w ← on_data p v; receive ps w
