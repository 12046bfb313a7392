-- ===== src/Exception.antt =====
-- src/utils/Exception.h and the classes that derive from it: server/ExceptionServer.h,
-- utils/network/ExceptionNetwork.h, utils/communication/ExceptionCommunication.h,
-- utils/concurrency/ExceptionConcurrency.h, utils/logger/ExceptionLogger.h, utils/platform/ExceptionPlatform.h
-- and utils/security/ExceptionSecurity.h, all below src. The copy of the text is its value.
use Prim.Native.String.{String}

pub data Class : Type 0 where
  base server network communication concurrency logger platform security : Class

-- An object with its class and m_msg.
pub record Exception : Type 0 where
  pub class : Class
  pub msg : String

-- The constructor of the base class without a text.
abbrev pub new_exception : Exception
new_exception = record { class = base; msg = "" }

-- The constructors with a text; those of the derived classes pass it on.
abbrev pub exception_of : Class → String → Exception
exception_of class msg = record { class = class; msg = msg }

unfoldable pub get_message : Exception → String
get_message e = e.msg
