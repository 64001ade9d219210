-- ===== src/WebSend/Media.antt =====
-- The media of a message to send, in web_server.go.
use gomsggw.Base.{
  ℕ, ◌+◌, not, List, [], ◌∷◌, ◌++◌, Option, none, some, String, Text, length, text_eq, ◌==◌,
  Eq_String, if◌then◌else◌,
}
use gomsggw.Message.{MsgFile}
use gomsggw.WebSend.{WebMediaItem, WebSendEnv, SendError, fetch_failed, bad_base64}

-- The file of an item, nothing for an item without content, or the error.
pub data Loaded : Type 0 where
  file : Text → String → String → Loaded
  skipped : Loaded
  failed : SendError → Loaded

abbrev or_given : String → String → String
or_given given other = if not (given == "") then given else other

fetched : WebMediaItem → Option (Text × String × String) → Loaded
fetched media none = failed (fetch_failed media.url)
fetched media (some (content, type, name)) =
    file content (or_given media.content_type type) (or_given media.filename name)

inline : WebMediaItem → Option Text → Loaded
inline media none = failed bad_base64
inline media (some content) = file content media.content_type media.filename

unfoldable pub load_media : WebSendEnv → WebMediaItem → Loaded
unfolding fetched inline
load_media env media =
    if not (media.url == "")
    then fetched media (env.fetch media.url)
    else if not (text_eq media.content [])
    then inline media (env.decode_base64 media.content)
    else skipped

-- The files, in base64 again, and the size of what they encode.
pub data Prepared : Type 0 where
  prepared : List MsgFile → ℕ → Prepared
  broken : SendError → Prepared

unfoldable pub prepare_step :
    WebSendEnv → (List MsgFile → ℕ → Prepared) → Loaded → List MsgFile → ℕ → Prepared
prepare_step env more (failed e) files size = broken e
prepare_step env more skipped files size = more files size
prepare_step env more (file content type name) files size =
    let made : MsgFile = record {
      filename = name;
      content_type = type;
      content = env.encode_base64 content;
      base64_data = [];
      media_url = "";
    } in
    more (files ++ made ∷ []) (size + length content)

unfoldable pub prepare : WebSendEnv → List WebMediaItem → List MsgFile → ℕ → Prepared
unfolding prepare_step load_media
prepare env [] files size = prepared files size
prepare env (item ∷ media) files size =
    prepare_step env (prepare env media) (load_media env item) files size
