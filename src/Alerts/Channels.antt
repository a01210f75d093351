-- ===== src/Alerts/Channels.antt =====
-- src/alerts/channels: the adapters that deliver a message.
use servers_manager.Base.{
  Bool, true, false, not, Option, none, some, ◌++◌, Text, codes, truthy, trim, take, if◌then◌else◌,
  Throws, ok, throw, type_error,
}
use servers_manager.Db.{AlertChannel}

-- src/alerts/channels/channel-adapter.interface.ts
pub record ChannelSendResult : Type 0 where
  pub success : Bool
  pub error : Option Text

-- `config.webhook_url` of the parsed configuration: `null` has no fields, and the field is a
-- string or not.
pub data ChannelConfig : Type 0 where
  null_config no_webhook_text : ChannelConfig
  webhook : Text → ChannelConfig

-- What the POST comes to: a response (whether its status is 2xx, the status in digits, the body,
-- empty where it cannot be read), the abort of the timer, or an error with the message of its
-- cause, if that is an error.
pub data FetchOutcome : Type 0 where
  response : (is_ok : Bool) → (status body : Text) → FetchOutcome
  aborted : FetchOutcome
  fetch_error : (message : Text) → (cause : Option Text) → FetchOutcome

-- `fetch` of a JSON body to a URL, as the platform answers it.
pub record ChannelPorts : Type 0 where
  pub post : Text → Text → FetchOutcome

abbrev pub not_configured_message : Text
not_configured_message =
    codes "Email channel not yet configured (no SMTP infrastructure in this phase)"

abbrev failure : Text → ChannelSendResult
failure message = record { success = false; error = some message }

unfoldable pub email_send : Text → ChannelConfig → ChannelSendResult
email_send message config = failure not_configured_message

unfoldable pub describe_fetch_error : Text → Option Text → Text
describe_fetch_error message none = message
describe_fetch_error message (some cause) = message ++ codes ": " ++ cause

unfoldable pub read_response : FetchOutcome → ChannelSendResult
unfolding describe_fetch_error
read_response (response true status body) = record { success = true; error = none }
read_response (response false status body) =
    failure (codes "Slack webhook returned " ++ status ++ codes ": " ++ take 500 body)
read_response aborted = failure (codes "Slack webhook POST timed out after 8000ms")
read_response (fetch_error message cause) = failure (describe_fetch_error message cause)

abbrev missing_webhook : ChannelSendResult
missing_webhook = failure (codes "Slack channel config is missing \"webhook_url\"")

-- Reading a field of `null` rejects the promise; everything else resolves.
unfoldable pub slack_send : ChannelPorts → Text → ChannelConfig → Throws ChannelSendResult
unfolding read_response
slack_send ports message null_config = throw type_error
slack_send ports message no_webhook_text = ok missing_webhook
slack_send ports message (webhook url) =
    if not (truthy (trim url))
    then ok missing_webhook
    else ok (read_response (ports.post url message))

-- `getAdapter(channel).send(message, config)`.
unfoldable pub adapter_send :
    ChannelPorts → AlertChannel → Text → ChannelConfig → Throws ChannelSendResult
unfolding slack_send email_send
adapter_send ports AlertChannel.slack message config = slack_send ports message config
adapter_send ports AlertChannel.email message config = ok (email_send message config)
