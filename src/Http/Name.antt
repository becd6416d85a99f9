-- ===== src/Http/Name.antt =====
-- header.go: the names of the header fields.
use titip.Text.{Text, codes}

abbrev pub cache_control : Text
cache_control = codes "Cache-Control"

abbrev pub cdn_cache_control : Text
cdn_cache_control = codes "CDN-Cache-Control"

abbrev pub titip_cache_control : Text
titip_cache_control = codes "Titip-Cache-Control"

abbrev pub cache_status : Text
cache_status = codes "Cache-Status"

abbrev pub age : Text
age = codes "Age"

abbrev pub expires : Text
expires = codes "Expires"

abbrev pub date : Text
date = codes "Date"

abbrev pub vary : Text
vary = codes "Vary"

abbrev pub etag : Text
etag = codes "ETag"

abbrev pub last_modified : Text
last_modified = codes "Last-Modified"

abbrev pub if_match : Text
if_match = codes "If-Match"

abbrev pub if_unmodified_since : Text
if_unmodified_since = codes "If-Unmodified-Since"

abbrev pub if_none_match : Text
if_none_match = codes "If-None-Match"

abbrev pub if_modified_since : Text
if_modified_since = codes "If-Modified-Since"

abbrev pub upgrade : Text
upgrade = codes "Upgrade"

abbrev pub accept : Text
accept = codes "Accept"

abbrev pub content_type : Text
content_type = codes "Content-Type"

abbrev pub range : Text
range = codes "Range"

abbrev pub set_cookie : Text
set_cookie = codes "Set-Cookie"

abbrev pub x_forwarded_proto : Text
x_forwarded_proto = codes "X-Forwarded-Proto"

abbrev pub authorization : Text
authorization = codes "Authorization"

abbrev pub pragma : Text
pragma = codes "Pragma"

abbrev pub location : Text
location = codes "Location"

abbrev pub content_location : Text
content_location = codes "Content-Location"

abbrev pub content_encoding : Text
content_encoding = codes "Content-Encoding"

abbrev pub cache_tag : Text
cache_tag = codes "Cache-Tag"

abbrev pub surrogate_control : Text
surrogate_control = codes "Surrogate-Control"

abbrev pub connection : Text
connection = codes "Connection"

abbrev pub content_type_event_stream : Text
content_type_event_stream = codes "text/event-stream"

abbrev pub upgrade_websocket : Text
upgrade_websocket = codes "websocket"

abbrev pub surrogate_capability : Text
surrogate_capability = codes "Surrogate-Capability"

abbrev pub content_length : Text
content_length = codes "Content-Length"
