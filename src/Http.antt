-- ===== src/Http.antt =====
-- The request and the response of src/net/http/http_request.h and src/net/http/http_response.h.
pub mod Url
pub mod Router
pub mod Conn
use my_bookstore.Base.{
  length, digits, [], nat_eq, ◌++◌, Dict, codes, if◌then◌else◌, ◌∷◌, Bool, Text, ℕ,
}

pub data HttpMethod : Type 0 where
  get post put patch delete unknown : HttpMethod

pub record HttpRequest : Type 0 where
  pub method : HttpMethod
  pub path : Text
  pub body : Text
  pub headers : Dict Text Text
  pub path_params : Dict Text Text
  pub query_params : Dict Text Text

pub record HttpResponse : Type 0 where
  pub status_code : ℕ
  pub reason : Text
  pub content_type : Text
  pub body : Text

unfoldable pub reason_phrase : ℕ → Text
reason_phrase status =
    if nat_eq status 200
    then codes "OK"
    else if nat_eq status 201
    then codes "Created"
    else if nat_eq status 400
    then codes "Bad Request"
    else if nat_eq status 401
    then codes "Unauthorized"
    else if nat_eq status 403
    then codes "Forbidden"
    else if nat_eq status 404
    then codes "Not Found"
    else if nat_eq status 409
    then codes "Conflict"
    else if nat_eq status 500
    then codes "Internal Server Error"
    else if nat_eq status 501
    then codes "Not Implemented"
    else if nat_eq status 503
    then codes "Service Unavailable"
    else codes "OK"

-- `HttpResponse::json`
unfoldable pub json : ℕ → Text → HttpResponse
json status payload = record {
  status_code = status;
  reason = reason_phrase status;
  content_type = codes "application/json";
  body = payload;
}

abbrev crlf : Text
crlf = 13 ∷ 10 ∷ []

unfoldable pub to_http_string : HttpResponse → Bool → Text
to_http_string r keep_alive =
    codes "HTTP/1.1 "
    ++ (digits r.status_code
        ++ (codes " "
            ++ (r.reason
                ++ (crlf
                    ++ (codes "Content-Type: "
                        ++ (r.content_type
                            ++ (crlf
                                ++ (codes "Content-Length: "
                                    ++ (digits (length r.body)
                                        ++ (crlf
                                            ++ (codes "Connection: "
                                                ++ ((if keep_alive
                                                      then codes "keep-alive"
                                                      else codes "close")
                                                    ++ (crlf ++ (crlf ++ r.body))))))))))))))
