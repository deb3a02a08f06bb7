-- ===== src/Gateway.antt =====
-- cmd/api-gateway/server_grpc.go: the services behind the interceptor. The code that protoc writes for
-- them is not modelled, but for the names of the methods.
pub mod Tenants
pub mod Cors
use pingerus.Base.{Bool, List, [], ◌∷◌, Option}
use pingerus.Base.Int.{ℤ}
use pingerus.Text.{Text, codes}
use pingerus.World.{World, Op}
use pingerus.AuthService
use pingerus.AuthService.{Crypto, Config}
use pingerus.AuthService.Api
use pingerus.AuthService.Api.{Metadata}
use pingerus.AuthService.Interceptor.{unary_auth_interceptor}
use pingerus.AuthService.Jwt.{Encoding}
use pingerus.CheckService.Api.{Validators}
use pingerus.CheckService.Requests
use pingerus.CheckService.Requests.{answer, dropped}

-- A call of one of the services; `valid` is what ValidateAll says of it.
pub data Request : Type 0 where
  sign_up sign_in : (valid : Bool) (email password : Text) → Request
  refresh logout me : Request
  of_checks : Requests.Request → Request

abbrev pub check_method : Requests.Request → Text
check_method (Requests.create req) = codes "/pingerus.v1.CheckService/CreateCheck"
check_method (Requests.get id) = codes "/pingerus.v1.CheckService/GetCheck"
check_method (Requests.update inp) = codes "/pingerus.v1.CheckService/UpdateCheck"
check_method (Requests.delete id) = codes "/pingerus.v1.CheckService/DeleteCheck"
check_method (Requests.list id) = codes "/pingerus.v1.CheckService/ListChecks"

-- info.FullMethod
abbrev pub full_method : Request → Text
full_method (sign_up valid email password) = codes "/pingerus.v1.AuthService/SignUp"
full_method (sign_in valid email password) = codes "/pingerus.v1.AuthService/SignIn"
full_method refresh = codes "/pingerus.v1.AuthService/Refresh"
full_method logout = codes "/pingerus.v1.AuthService/Logout"
full_method me = codes "/pingerus.v1.AuthService/Me"
full_method (of_checks r) = check_method r

module _ (e : Encoding) (c : Crypto) (cfg : Config) (name : Text) (v : Validators) where
  -- The handler of a call, without its answer.
  unfoldable pub handler : Metadata → Request → Option ℤ → Op (Unit {0})
  handler md (sign_up valid email password) user =
      dropped (Api.sign_up e c cfg name valid email password)
  handler md (sign_in valid email password) user =
      dropped (Api.sign_in e c cfg name valid email password)
  handler md refresh user = dropped (Api.refresh e c cfg name md)
  handler md logout user = dropped (Api.logout e c cfg name md)
  handler md me user = dropped (Api.me e c cfg name md)
  handler md (of_checks r) user = answer v user r

  -- The world after a call.
  unfoldable pub serve : Metadata → Request → World → World
  unfolding handler unary_auth_interceptor
  serve md r w =
      (unary_auth_interceptor c.lower (AuthService.parse_access e c cfg) (full_method r) md
        (handler md r) w).1

  unfoldable pub serve_all : List (Metadata × Request) → World → World
  unfolding serve
  serve_all [] w = w
  serve_all ((md, r) ∷ rs) w = serve_all rs (serve md r w)
